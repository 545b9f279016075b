-- ===== src/Redis/Get.antt =====
-- `ResourceRedisConnection::get(rl, resource)`: asks for the present use, chooses and takes.
use sems_yeti.Prelude.{Bool, Option, none, some, List, [], if◌then◌else◌}
use sems_yeti.Resource.{Resource}
use sems_yeti.Sequences.Check.{CheckResources}
use sems_yeti.Redis.Select.{Checked, check, check_normal, available, overloaded}
use sems_yeti.Redis.{Redis, Effect, take_active}

-- `res_busy r`: the iterator stands at the overloaded resource `r`.
pub data Response : Type 0 where
  res_succ res_err : Response
  res_busy : Resource → Response

pub record Got : Type 0 where
  pub response : Response
  pub rl : List Resource
  pub redis : Redis
  pub effects : List Effect

-- The end of the function, after the loop.
unfoldable pub conclude : Bool → Redis → Checked → Got
conclude could_post r (overloaded s rl) = record {
  response = res_busy s;
  rl = rl;
  redis = r;
  effects = [];
}
conclude could_post r (available rl) =
    let (taken, (r', es)) = take_active could_post r rl in
    record { response = res_succ; rl = taken; redis = r'; effects = es }

-- `answer` is the sequence that was waited for, `none` if the wait timed out.
unfoldable pub get : Bool → Redis → List Resource → Option CheckResources → Got
unfolding conclude
get could_post r rl answer =
    let failed : Got = record { response = res_err; rl = rl; redis = r; effects = [] } in
    elim answer [
      | none ↦ failed
      | some c ↦
          if c.iserror then failed else conclude could_post r (check check_normal c.result rl)
    ]
