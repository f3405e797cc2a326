-- ===== src/Generate/Response.antt =====
-- What Generate (server/generator.go) answers to a request for one resource.
use Prim.Native.String.{String}
use stripe_mock_pi.Prelude.{ℕ, ◌≡◌, refl, true, false, none, some, All, ◌==◌}
use stripe_mock_pi.Text.Split.{without}
use stripe_mock_pi.Json.{Value, str, obj, Object, get}
use stripe_mock_pi.Json.Laws.{Distinct}
use stripe_mock_pi.Replace.{returns}
use stripe_mock_pi.Synthetic.{is_binary_resource}
use stripe_mock_pi.Ids.{Entropy}
use stripe_mock_pi.Server.{PathParams}
use stripe_mock_pi.PathIds.{replace_ids, maybe_generate_primary_id}
use stripe_mock_pi.PathIds.Absent.{Absent}
use stripe_mock_pi.PathIds.Primary.{replace_ids-Absent}
use stripe_mock_pi.Generate.{generated, Generator}
use stripe_mock_pi.Generate.Internal.{generate_internal}
use stripe_mock_pi.Generate.Request.{GenerateParams, generate, finish}

-- A request other than POST for a resource that is generated as a map with each key once, whose
-- `id` has no slash and is none of the path's ids, and whose path has a primary id: Generate answers
-- with a value, without a random number, in which no field at any depth holds the fixture's id.
pub generate-Absent :
    (fuel same_type_fuel : ℕ) (g : Generator) (params : GenerateParams) (p : PathParams)
    (m : Object) (old new : String) (e : Entropy)
    → generate_internal fuel g params.expansions params.response_schema none
      ≡ returns (generated (obj m))
    → is_binary_resource params.response_schema ≡ false
    → (g.request_method == "POST") ≡ false
    → params.path_params ≡ some p
    → Distinct m
    → p.primary_id ≡ some new
    → get m "id" ≡ some (str old)
    → (new == old) ≡ false
    → All (λ s. (s.id == old) ≡ false) p.secondary_ids
    → without 47 old ≡ true
    → (v : Value) × (generate fuel same_type_fuel g params e ≡ returns (generated v, e))
      × Absent old v
unfolding generate finish maybe_generate_primary_id replace_ids
generate-Absent fuel same_type_fuel g params p m old new e made text get_ path d primary id fresh
      others plain =
    (
      replace_ids (some p) (obj m),
      rw (made, text, path, primary, get_) refl,
      replace_ids-Absent p m old new d primary id fresh others plain,
    )
