-- ===== src/SbcCallLeg/Tests.antt =====
-- A call with two routes that take a resource each: the first refuses, the second is tried.
use sems_yeti.Prelude.{ℕ, ◌≡◌, refl, true, false, List, [], ◌∷◌, Option, none, some, length}
use sems_yeti.Prelude.Int.{pos}
use sems_yeti.Prelude.Classes.{Text, codes, text_key}
use sems_yeti.Prelude.Map.{find, emplace, erase}
use sems_yeti.Resource.{Resource, blank}
use sems_yeti.Sequences.Check.{CheckResources, check_resources, finish}
use sems_yeti.Sequences.Operations
use sems_yeti.Redis
use sems_yeti.Redis.Select.{check}
use sems_yeti.Redis.Get
use sems_yeti.Control
use sems_yeti.Control.{Control}
use sems_yeti.Control.System
use sems_yeti.Codes.{Translator, Env}
use sems_yeti.Cdr.{first_cdr}
use sems_yeti.CallCtx.{Profile}
use sems_yeti.SbcCallLeg.{Ask, Leg, Outside, Step}
use sems_yeti.SbcCallLeg.Fewer.{callees}
use sems_yeti.SbcCallLeg.Refusal.{Refused, started}
use sems_yeti.SbcCallLeg.Admission.{Processing, process_resources_and_sdp}
use sems_yeti.SbcCallLeg.Life.{Event, run, EndsWithin, refusals_end}

abbrev trunk : Resource
trunk = record blank { type = pos 1; id = pos 7; takes = pos 1; limit = pos 10 }

abbrev answer : Option CheckResources
answer =
    some (record (check_resources (trunk ∷ [])) {
      state = finish;
      finished = true;
      result = pos 3 ∷ [];
    })

-- Hunting goes on after 486.
abbrev translator : Translator
translator = record {
  code2pref = (486, false) ∷ [];
  code2prefs_overrides = [];
  code2trans = [];
  code2trans_overrides = [];
  icode2resp = [];
  icode2resp_overrides = [];
  stat = record {
    unknown_response_codes = 0;
    missed_response_configs = 0;
    unknown_internal_codes = 0;
  };
}

abbrev env : Env
env = record {
  no_reply_code = 0;
  int2str = λ n. codes "8";
  server_internal_error = codes "Server Internal Error";
  early_100_trying = true;
}

abbrev out : Outside ℕ
out = record { env = env; int2str = λ n. codes "8"; clock = λ n. n; now = 20; time_limit = λ n. n }

abbrev route : ℕ → Profile ℕ
route n = record {
  skip_code_id = pos 0;
  disconnect_code_id = pos 0;
  aleg_override_id = pos 0;
  bleg_override_id = pos 0;
  rl = trunk ∷ [];
  resource_handler = [];
  details = n;
}

abbrev leg : Leg ℕ Text
leg = record {
  a_leg = true;
  local_tag = codes "caller";
  other_id = [];
  has_ctx = true;
  references = 1;
  has_initial_invite = true;
  ctx = record {
    profiles = route 1 ∷ route 2 ∷ [];
    current = route 1 ∷ route 2 ∷ [];
    cdr = first_cdr (codes "start") 1;
  };
  control = record (Control.System.started [] true) { container_ready = true };
  translator = translator;
  call_profile = route 1;
  duration_timer = none;
}

abbrev asks : Text → ℕ → Ask
asks id n = record { could_post = true; new_id = id; answer = answer }

abbrev sdp : Processing
sdp = record {
  offer = 0;
  bleg_offer = 0;
  routing = started;
  not_acceptable = codes "Not Acceptable Here";
}

abbrev busy : Refused
busy = record {
  net = record {
    code = 486;
    transport_id = 1;
    remote_ip = codes "10.0.0.1";
    remote_port = 5060;
    actual_ip = codes "10.0.0.2";
    actual_port = 5060;
    has_sdp = false;
  };
  reason = codes "Busy Here";
  from_tag = codes "b";
  local_reply = false;
}

abbrev events : List (Event ℕ)
events =
    record {
      out = out;
      refusal = busy;
      could_post = true;
      asks = asks (codes "second");
      connect = started;
    }
    ∷ []

refusals_end_example : EndsWithin 2 (run events leg)
refusals_end_example = refusals_end events leg

abbrev or_leg : Option (Step ℕ Text × Option (ℕ × Text)) → Step ℕ Text × Option (ℕ × Text)
or_leg none = ((leg, []), none)
or_leg (some r) = r

abbrev or_step : Option (Step ℕ Text) → Step ℕ Text
or_step none = (leg, [])
or_step (some r) = r

abbrev first : Step ℕ Text × Option (ℕ × Text)
first = or_leg (process_resources_and_sdp out (asks (codes "first")) sdp true leg)

-- The second route is tried, and its resources are held.
tried : callees (or_step (run events first.0.0)).1 ≡ 1
unfolding process_resources_and_sdp run Get.get check find emplace System.started Redis.take_active
    Redis.put
tried = refl

held : length (or_step (run events first.0.0)).0.control.handlers ≡ 1
unfolding process_resources_and_sdp run Get.get check find emplace erase System.started
    Redis.take_active Operations.perform
held = refl
