-- ===== src/SbcCallLeg/EndingTests.antt =====
-- Tests of the handlers that end a call.
use sems_yeti.Prelude.{ℕ, ◌≡◌, refl, Bool, true, false, List, [], ◌∷◌, length}
use sems_yeti.Prelude.Int.{pos}
use sems_yeti.Prelude.Classes.{Text, codes}
use sems_yeti.Prelude.Map.{find}
use sems_yeti.Codes.{translate_db_code, Env, Translator}
use sems_yeti.CallCtx.{get_override_id}
use sems_yeti.Cdr.{
  update_internal_reason, update_aleg_reason, update_bleg_reason, by_ts, by_dst, first_cdr,
}
use sems_yeti.Cdr.Updates.{internal_of, bleg_of, told_of}
use sems_yeti.CallLeg.{connected, ringing, disconnected}
use sems_yeti.SbcCallLeg.Ending.{Side, Shared, connected_dialog, session_timeout}
use sems_yeti.SbcCallLeg.Causes.{Event, bye, other_bye, torn_down, status_changed, run}
use sems_yeti.SbcCallLeg.FirstCause.{first_cause}

abbrev translator : Translator
translator = record {
  code2pref = [];
  code2prefs_overrides = [];
  code2trans = [];
  code2trans_overrides = [];
  icode2resp =
      (
        128,
        record {
          internal_code = pos 487;
          response_code = pos 487;
          internal_reason = codes "Session timeout";
          response_reason = codes "Bye";
          store_cdr = true;
          silently_drop = false;
        },
      )
      ∷ [];
  icode2resp_overrides = [];
  stat = record {
    unknown_response_codes = 0;
    missed_response_configs = 0;
    unknown_internal_codes = 0;
  };
}

abbrev env : Env
env = record {
  no_reply_code = 0;
  int2str = λ n. codes "8";
  server_internal_error = codes "Server Internal Error";
  early_100_trying = true;
}

abbrev shared : Shared ℕ Text
shared = record {
  ctx = record { profiles = []; current = []; cdr = first_cdr (codes "start") 1 };
  has_cdr = true;
  translator = translator;
  rang_too_long = false;
  bleg_early_media_muted = false;
}

abbrev talking : Bool → Side
talking a_leg = record {
  a_leg = a_leg;
  has_ctx = true;
  status = connected;
  dialog = connected_dialog;
  has_other = true;
  local_tag = codes "tag";
  global_tag = codes "global";
  call_id = codes "call";
  ring_for = pos 0;
  fake_ring_for = pos 0;
  one_way_early_media = false;
  has_media = true;
  now = 30;
}

-- The callee hangs up, then the call is torn down.
abbrev hung_up : List Event
hung_up =
    record { side = talking false; what = bye }
    ∷ record { side = talking true; what = torn_down }
    ∷ []

first_cause_example :
    (internal_of (run env hung_up shared).0.ctx.cdr ≡ (by_dst, codes "Bye", 200))
    × (bleg_of (run env hung_up shared).0.ctx.cdr ≡ (codes "Bye", 200))
    × (told_of (run env hung_up shared).0.ctx.cdr ≡ (codes "Bye", 200))
first_cause_example = first_cause env hung_up shared refl refl refl refl refl

-- The session of a leg times out, and then the other leg hangs up.
abbrev timed_out : List Event
timed_out =
    record {
      side = record (talking true) { status = disconnected };
      what = status_changed session_timeout;
    }
    ∷ record { side = talking false; what = bye }
    ∷ []

timed_out_test :
    internal_of (run env timed_out shared).0.ctx.cdr ≡ (by_ts, codes "Session timeout", 487)
unfolding run find translate_db_code get_override_id update_internal_reason update_bleg_reason
timed_out_test = refl

-- An early BYE of the callee hands the CDR over, once.
abbrev early : List Event
early =
    record { side = record (talking true) { status = ringing }; what = other_bye }
    ∷ record { side = talking true; what = torn_down }
    ∷ record { side = record (talking true) { status = ringing }; what = other_bye }
    ∷ []

early_test : length (run env early shared).1 ≡ 3
unfolding run update_internal_reason update_aleg_reason
early_test = refl

early_cause : internal_of (run env early shared).0.ctx.cdr ≡ (by_dst, codes "EarlyBye", 500)
unfolding run update_internal_reason update_aleg_reason update_bleg_reason
early_cause = refl
