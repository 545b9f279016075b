-- ===== src/Control/Tests.antt =====
-- ResourceControl from its start: a call that takes a resource and gives it back, and an invalidation.
use sems_yeti.Prelude.{◌≡◌, refl, true, false, Option, some, List, [], ◌∷◌}
use sems_yeti.Prelude.Int.{pos}
use sems_yeti.Prelude.Classes.{Text, codes, text_key}
use sems_yeti.Prelude.Map
use sems_yeti.Prelude.Map.{find}
use sems_yeti.Resource.{Resource, blank}
use sems_yeti.Sequences.{Reply, success_reply, undef}
use sems_yeti.Sequences.Invalidate
use sems_yeti.Sequences.Operations
use sems_yeti.Sequences.Check.{CheckResources, check_resources, finish}
use sems_yeti.Redis
use sems_yeti.Redis.Select.{check}
use sems_yeti.Redis.Get
use sems_yeti.Control.{
  Control, ResourceConfig, Grant, resource_config, get, put, invalidate_resources,
}
use sems_yeti.Control.Handlers.{put_twice, put_after_invalidate, get_then_put}
use sems_yeti.Control.System.{
  Event, connects, initial_replies, invalidates, step, run, started, invalidation_is_final,
}

-- Redis has no keys yet.
abbrev no_keys : Reply
no_keys = record { result = success_reply; reply_data = undef }

abbrev boot : List Event
boot = connects true ∷ initial_replies true no_keys ∷ []

abbrev config : ResourceConfig
config = record (resource_config (pos 1) (codes "trunk") (pos 8) (pos 1)) { id = pos 1 }

boot_ready : (run boot (started [] true)).container_ready ≡ true
unfolding run started Redis.on_connect Redis.initial_reply Invalidate.perform
    Invalidate.process_reply
boot_ready = refl

invalidation_is_final_example :
    (run boot (step (invalidates true) (run boot (started [] true)))).container_ready ≡ false
invalidation_is_final_example = invalidation_is_final [] true boot boot true boot_ready

abbrev trunk : Resource
trunk = record blank { type = pos 1; id = pos 7; takes = pos 1; limit = pos 10 }

abbrev answer : Option CheckResources
answer =
    some (record (check_resources (trunk ∷ [])) {
      state = finish;
      finished = true;
      result = pos 3 ∷ [];
    })

ready : Control
unfolding run started Redis.on_connect Redis.initial_reply Invalidate.perform
    Invalidate.process_reply
ready = run boot (started [] true)

abbrev id : Text
id = codes "id"

abbrev tag : Text
tag = codes "tag"

abbrev admitted : Grant
admitted = get true ready (trunk ∷ []) [] tag config id answer

admitted_id : admitted.handler ≡ id
unfolding ready get Get.get check Redis.take_active Operations.perform
admitted_id = refl

get_then_put_example :
    ((put true admitted.control id).1 ≡ (Redis.put true admitted.control.redis admitted.rl).1)
    × ((put true admitted.control id).0.redis
        ≡ (Redis.put true admitted.control.redis admitted.rl).0)
    × ((j : Text)
        → Map.find j (put true admitted.control id).0.handlers ≡ Map.find j ready.handlers)
get_then_put_example =
    get_then_put true true ready (trunk ∷ []) [] tag config id answer (λ e. cc)
      (unfold ready Map.find in refl) (λ e. cc) admitted_id

put_twice_example :
    put false (put true admitted.control id).0 id ≡ ((put true admitted.control id).0, [])
put_twice_example = put_twice true false admitted.control id

put_after_invalidate_example :
    let c' = (invalidate_resources true admitted.control).0 in
    ((put true c' id).1 ≡ []) × ((put true c' id).0.redis ≡ c'.redis)
put_after_invalidate_example = put_after_invalidate true true admitted.control id
