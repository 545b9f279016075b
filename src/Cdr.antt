-- ===== src/Cdr.antt =====
-- src/cdr/Cdr.h and Cdr.cpp: the record of one attempt of a call, as far as the routing and the legs
-- write to it. `Details` is what `Cdr::update_sql` copies from a profile, `Carried` what one attempt hands
-- to the next beside the fields here; `dump_level_id`, which is both, is left out. A time is a number of
-- microseconds, 0 if it is cleared, and the reading of the clock an argument; a code is a number.

pub mod Updates
mod Times
mod Tests
use sems_yeti.Prelude.{
  ℕ, ◌+◌, ltb, leb, ◌==◌, Bool, true, false, ◌&&◌, ◌||◌, List, [], ◌∷◌, if◌then◌else◌, filter,
  is_nil,
}
use sems_yeti.Prelude.Int.{ℤ, negsuc}
use sems_yeti.Prelude.Classes.{Text, codes}
use sems_yeti.Resource.{Resource}

pub data Initiator : Type 0 where
  by_db by_ts by_dst by_org undefined : Initiator

-- The peer of the second leg, as its replies show it.
pub record BlegNet : Type 0 where
  pub transport_protocol_id : ℕ
  pub remote_ip : Text
  pub remote_port : ℕ
  pub local_ip : Text
  pub local_port : ℕ

pub record Cdr (Details Carried : Type 0) : Type 0 where
  pub attempt_num : ℕ
  pub details : Details
  pub carried : Carried
  pub local_tag : Text
  pub global_tag : Text
  pub orig_call_id : Text
  pub term_call_id : Text
  pub bleg_local_tag : Text
  pub writed : Bool
  pub is_last : Bool
  pub suppress : Bool
  pub start_time : ℕ
  pub bleg_invite_time : ℕ
  pub connect_time : ℕ
  pub bleg_connect_time : ℕ
  pub end_time : ℕ
  pub sip_10x_time : ℕ
  pub sip_18x_time : ℕ
  pub sip_early_media_present : Bool
  pub disconnect_initiator : Initiator
  pub disconnect_initiator_writed : Bool
  pub disconnect_reason : Text
  pub disconnect_code : ℕ
  pub aleg_reason_writed : Bool
  pub bleg_reason_writed : Bool
  pub disconnect_internal_reason : Text
  pub disconnect_internal_code : ℕ
  pub disconnect_rewrited_reason : Text
  pub disconnect_rewrited_code : ℕ
  pub bleg_net : BlegNet
  pub active_resources : List Resource
  pub failed_resource_type_id : ℤ
  pub failed_resource_id : ℤ
  pub aleg_sdp_completed : Bool
  pub bleg_sdp_completed : Bool

pub data UpdateAction : Type 0 where
  start bleg_invite connect bleg_connect end : UpdateAction

-- What `update_with_sip_reply` reads of a reply, beside the header fields that it keeps.
pub record BlegReply : Type 0 where
  pub code : ℕ
  pub transport_id : ℕ
  pub remote_ip : Text
  pub remote_port : ℕ
  pub actual_ip : Text
  pub actual_port : ℕ
  pub has_sdp : Bool

abbrev pub no_net : BlegNet
no_net = record {
  transport_protocol_id = 0;
  remote_ip = [];
  remote_port = 0;
  local_ip = [];
  local_port = 0;
}

-- All but the last element.
abbrev pub pop_back : Text → Text
pop_back [] = []
pop_back (a ∷ []) = []
pop_back (a ∷ b ∷ t) = a ∷ pop_back (b ∷ t)

abbrev pub ends_with : ℕ → Text → Bool
ends_with c [] = false
ends_with c (a ∷ []) = a == c
ends_with c (a ∷ b ∷ t) = ends_with c (b ∷ t)

-- Of four bytes at least, in brackets: without them.
unfoldable pub remove_ipv6_reference : Text → Text
remove_ipv6_reference (a ∷ b ∷ c ∷ d ∷ t) =
    if a == b'[' && ends_with b']' (b ∷ c ∷ d ∷ t)
    then pop_back (b ∷ c ∷ d ∷ t)
    else a ∷ b ∷ c ∷ d ∷ t
remove_ipv6_reference s = s

module _ {Details Carried : Type 0} where
  -- The constructor of a CDR for a first profile.
  abbrev pub first_cdr : Carried → Details → Cdr Details Carried
  first_cdr blank details = record {
    attempt_num = 1;
    details = details;
    carried = blank;
    local_tag = [];
    global_tag = [];
    orig_call_id = [];
    term_call_id = [];
    bleg_local_tag = [];
    writed = false;
    is_last = false;
    suppress = false;
    start_time = 0;
    bleg_invite_time = 0;
    connect_time = 0;
    bleg_connect_time = 0;
    end_time = 0;
    sip_10x_time = 0;
    sip_18x_time = 0;
    sip_early_media_present = false;
    disconnect_initiator = undefined;
    disconnect_initiator_writed = false;
    disconnect_reason = [];
    disconnect_code = 0;
    aleg_reason_writed = false;
    bleg_reason_writed = false;
    disconnect_internal_reason = codes "Unhandled sequence";
    disconnect_internal_code = 0;
    disconnect_rewrited_reason = [];
    disconnect_rewrited_code = 0;
    bleg_net = no_net;
    active_resources = [];
    failed_resource_type_id = negsuc 0;
    failed_resource_id = negsuc 0;
    aleg_sdp_completed = false;
    bleg_sdp_completed = false;
  }

  -- The constructor of a CDR that follows another.
  abbrev pub next_cdr : Cdr Details Carried → Details → Cdr Details Carried
  next_cdr cdr details = record (first_cdr cdr.carried details) {
    attempt_num = cdr.attempt_num + 1;
    start_time = cdr.start_time;
    end_time = cdr.start_time;
    local_tag = cdr.local_tag;
    global_tag = cdr.global_tag;
    orig_call_id = cdr.orig_call_id;
  }

  abbrev pub update_sql : Details → Cdr Details Carried → Cdr Details Carried
  update_sql details cdr = record cdr { details = details }

  abbrev pub set_start_time : ℕ → Cdr Details Carried → Cdr Details Carried
  set_start_time t cdr = record cdr { start_time = t; end_time = t }

  -- The switch of `update_with_action`.
  abbrev pub act_on : UpdateAction → ℕ → Cdr Details Carried → Cdr Details Carried
  act_on start now cdr = record cdr { start_time = now; end_time = now }
  act_on bleg_invite now cdr = record cdr {
    bleg_invite_time = if cdr.bleg_invite_time == 0 then now else cdr.bleg_invite_time;
  }
  act_on connect now cdr = record cdr {
    connect_time = if cdr.start_time == cdr.end_time then now else cdr.connect_time;
  }
  act_on bleg_connect now cdr = record cdr { bleg_connect_time = now }
  act_on end now cdr = record cdr {
    end_time = if cdr.start_time == cdr.end_time then now else cdr.end_time;
  }

  unfoldable pub update_with_action : UpdateAction → ℕ → Cdr Details Carried → Cdr Details Carried
  update_with_action act now cdr = if cdr.writed then cdr else act_on act now cdr

  unfoldable pub update_init_aleg : Text → Text → Text → Cdr Details Carried → Cdr Details Carried
  update_init_aleg tag global call_id cdr =
      if cdr.writed
      then cdr
      else record cdr { local_tag = tag; global_tag = global; orig_call_id = call_id }

  unfoldable pub update_init_bleg : Text → Text → Cdr Details Carried → Cdr Details Carried
  update_init_bleg call_id tag cdr =
      if cdr.writed then cdr else record cdr { term_call_id = call_id; bleg_local_tag = tag }

  -- The times of 10x and 18x replies, and early media.
  abbrev pub provisional : BlegReply → ℕ → Cdr Details Carried → Cdr Details Carried
  provisional r now cdr =
      if leb 100 r.code && ltb r.code 110
      then record cdr { sip_10x_time = if cdr.sip_10x_time == 0 then now else cdr.sip_10x_time }
      else (if leb 180 r.code && ltb r.code 190
          then record cdr {
            sip_18x_time = if cdr.sip_18x_time == 0 then now else cdr.sip_18x_time;
            sip_early_media_present = cdr.sip_early_media_present || r.has_sdp;
          }
          else cdr)

  unfoldable pub update_with_sip_reply : BlegReply → ℕ → Cdr Details Carried → Cdr Details Carried
  unfolding remove_ipv6_reference
  update_with_sip_reply r now cdr =
      if cdr.writed || r.remote_port == 0
      then cdr
      else provisional r now (record cdr {
        bleg_net = record {
          transport_protocol_id = r.transport_id;
          remote_ip = r.remote_ip;
          remote_port = r.remote_port;
          local_ip = remove_ipv6_reference r.actual_ip;
          local_port = r.actual_port;
        };
      })

  -- The resources that are written: the active ones, in their order.
  unfoldable pub update_with_resource_list :
      List Resource → Cdr Details Carried → Cdr Details Carried
  update_with_resource_list rl cdr =
      if is_nil rl then cdr else record cdr { active_resources = filter (λ r. r.active) rl }

  unfoldable pub update_failed_resource : Resource → Cdr Details Carried → Cdr Details Carried
  update_failed_resource r cdr = record cdr {
    failed_resource_type_id = r.type;
    failed_resource_id = r.id;
  }

  unfoldable pub update_bleg_reason : Text → ℕ → Cdr Details Carried → Cdr Details Carried
  update_bleg_reason reason code cdr =
      if cdr.writed || cdr.bleg_reason_writed then cdr else record cdr {
        disconnect_reason = reason;
        disconnect_code = code;
        bleg_reason_writed = true;
      }

  unfoldable pub update_aleg_reason : Text → ℕ → Cdr Details Carried → Cdr Details Carried
  update_aleg_reason reason code cdr = if cdr.writed then cdr else record cdr {
    disconnect_rewrited_reason = reason;
    disconnect_rewrited_code = code;
    aleg_reason_writed = true;
  }

  -- The initiator, reason and code, once.
  abbrev pub note_internal : Initiator → Text → ℕ → Cdr Details Carried → Cdr Details Carried
  note_internal initiator reason code cdr =
      if cdr.disconnect_initiator_writed then cdr else record cdr {
        disconnect_initiator = initiator;
        disconnect_internal_reason = reason;
        disconnect_internal_code = code;
        disconnect_initiator_writed = true;
      }

  -- What is told to the caller, as long as nothing else was.
  abbrev pub note_rewrited : Text → ℕ → Cdr Details Carried → Cdr Details Carried
  note_rewrited reason code cdr =
      if cdr.aleg_reason_writed
      then cdr
      else record cdr { disconnect_rewrited_reason = reason; disconnect_rewrited_code = code }

  unfoldable pub update_internal_reason :
      Initiator → Text → ℕ → ℕ → Cdr Details Carried → Cdr Details Carried
  unfolding update_with_action
  update_internal_reason initiator reason code now cdr =
      if cdr.writed
      then cdr
      else note_rewrited reason code
          (note_internal initiator reason code (update_with_action end now cdr))

  unfoldable pub set_suppress : Bool → Cdr Details Carried → Cdr Details Carried
  set_suppress s cdr = if cdr.writed then cdr else record cdr { suppress = s }

  -- `refuse` with a code.
  unfoldable pub refuse : ℕ → Text → Cdr Details Carried → Cdr Details Carried
  refuse code reason cdr =
      if cdr.writed then cdr else record cdr { disconnect_code = code; disconnect_reason = reason }

  unfoldable pub set_sdp_completed : Bool → Cdr Details Carried → Cdr Details Carried
  set_sdp_completed a_leg cdr =
      if a_leg
      then record cdr { aleg_sdp_completed = true }
      else record cdr { bleg_sdp_completed = true }

  -- `SqlRouter::write_cdr`: what is handed to the database; a CDR is written once.
  abbrev pub write_cdr : Bool → Cdr Details Carried → List (Cdr Details Carried)
  write_cdr last cdr = if cdr.writed then [] else record cdr { writed = true; is_last = last } ∷ []
