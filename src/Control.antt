-- ===== src/Control.antt =====
-- src/resources/ResourceControl.h and .cpp: admission of calls by their resources, and the handlers
-- under which what a call took is given back. Time stamps and the listings for RPC are not modelled.
mod Tests
pub mod Handlers
pub mod System
use sems_yeti.Prelude.{
  ℕ, zero, suc, ◌+◌, ◌%◌, ◌^◌, Bool, true, false, Option, none, some, List, [], ◌∷◌, if◌then◌else◌,
}
use sems_yeti.Prelude.Int.{ℤ, pos}
use sems_yeti.Prelude.Classes.{Text, codes, int_eq, text_key}
use sems_yeti.Prelude.Map
use sems_yeti.Prelude.Map.{Map}
use sems_yeti.Resource.{Resource}
use sems_yeti.Sequences.Check.{CheckResources}
use sems_yeti.Redis
use sems_yeti.Redis.{Redis, Effect, is_empty}
use sems_yeti.Redis.Get
use sems_yeti.Redis.Get.{Got, res_succ, res_busy, res_err}

pub data ActionType : Type 0 where
  reject next_route accept : ActionType

pub record ResourceConfig : Type 0 where
  pub id : ℤ
  pub name : Text
  pub internal_code_id : ℤ
  pub action : ActionType
  pub str_action : Text

-- An unknown number rejects, and leaves the text as it was.
unfoldable pub set_action : ℤ → ResourceConfig → ResourceConfig
set_action (pos (suc zero)) c = record c { action = reject; str_action = codes "Reject" }
set_action (pos (suc (suc zero))) c = record c {
  action = next_route;
  str_action = codes "NextRoute";
}
set_action (pos (suc (suc (suc zero)))) c = record c {
  action = accept;
  str_action = codes "Accept";
}
set_action _ c = record c { action = reject }

-- The constructor of four arguments; what it leaves unset is set by `set_action`.
abbrev pub resource_config : ℤ → Text → ℤ → ℤ → ResourceConfig
resource_config i n code a =
    set_action a
      (record { id = i; name = n; internal_code_id = code; action = reject; str_action = [] })

pub data CtlResponse : Type 0 where
  ctl_ok ctl_next ctl_reject ctl_error : CtlResponse

pub record HandlersEntry : Type 0 where
  pub resources : List Resource
  pub owner_tag : Text
  pub valid : Bool

-- Counters of `unsigned int`.
pub record Stat : Type 0 where
  pub hits : ℕ
  pub overloaded : ℕ
  pub rejected : ℕ
  pub nextroute : ℕ
  pub errors : ℕ

abbrev pub clear : Stat
clear = record { hits = 0; overloaded = 0; rejected = 0; nextroute = 0; errors = 0 }

-- `n++`
abbrev pub bump : ℕ → ℕ
bump n = (n + 1) % 2 ^ 32

pub record Control : Type 0 where
  pub redis : Redis
  pub type2cfg : Map ℤ ResourceConfig
  pub handlers : Map Text HandlersEntry
  pub container_ready : Bool
  pub reject_on_error : Bool
  pub stat : Stat

-- The row of `load_resource_types()`: id, name, internal_code_id, action_id.
abbrev pub TypeRow : Type 0
TypeRow = ℤ × Text × ℤ × ℤ

unfoldable pub load_resources_config : List TypeRow → Map ℤ ResourceConfig → Map ℤ ResourceConfig
load_resources_config [] m = m
load_resources_config (row ∷ rows) m =
    load_resources_config rows (Map.emplace row.0 (resource_config row.0 row.1 row.2 row.3) m)

abbrev pub on_resources_initialized : Control → Control
on_resources_initialized c = record c { container_ready = true }

abbrev pub dc_resource_cache_error : ℤ
dc_resource_cache_error = pos 1600

abbrev pub dc_resource_unknown_type : ℤ
dc_resource_unknown_type = pos 1601

-- What `get` returns and leaves in the arguments that it takes by reference.
pub record Grant : Type 0 where
  pub response : CtlResponse
  pub control : Control
  pub rl : List Resource
  pub handler : Text
  pub config : ResourceConfig
  pub effects : List Effect

-- RES_SUCC: `new_id` is what `AmSession::getNewId()` returns.
unfoldable pub granted : Text → Text → Grant → Grant
granted new_id owner_tag g =
    let entry : HandlersEntry = record { resources = g.rl; owner_tag = owner_tag; valid = true } in
    let c = g.control in
    record g {
      response = ctl_ok;
      handler = new_id;
      control = record c { handlers = Map.emplace new_id entry c.handlers };
    }

-- RES_BUSY, at the resource `r`.
unfoldable pub refused : Resource → Grant → Grant
refused r g =
    let c = g.control in
    let s = record (c.stat) { overloaded = bump c.stat.overloaded } in
    let counted = record c { stat = s } in
    let rejected = record c { stat = record s { rejected = bump s.rejected } } in
    let nextroute = record c { stat = record s { nextroute = bump s.nextroute } } in
    let old = g.config in
    elim (Map.find r.type c.type2cfg) [
      | none ↦ record g {
        response = ctl_reject;
        control = rejected;
        config = record old { internal_code_id = dc_resource_unknown_type };
      }
      | some rc ↦ elim rc.action [
        | accept ↦ record g { response = ctl_ok; control = counted }
        | next_route ↦ record g { response = ctl_next; control = nextroute; config = rc }
        | reject ↦ record g { response = ctl_reject; control = rejected; config = rc }
      ]
    ]

-- RES_ERR
unfoldable pub failed : Grant → Grant
failed g =
    let c = g.control in
    let counted = record c { stat = record (c.stat) { errors = bump c.stat.errors } } in
    let old = g.config in
    if c.reject_on_error
    then record g {
      response = ctl_error;
      control = counted;
      config = record old { internal_code_id = dc_resource_cache_error };
    }
    else record g { response = ctl_ok; control = counted }

-- The answer of the connection; an unready container is not asked.
unfoldable pub ask : Bool → Control → List Resource → Option CheckResources → Got
ask could_post c rl answer =
    if c.container_ready
    then Get.get could_post c.redis rl answer
    else record { response = res_err; rl = rl; redis = c.redis; effects = [] }

unfoldable pub answered : Text → Text → Got → Grant → Grant
unfolding granted refused failed
answered new_id owner_tag got g = elim got.response [
  | res_succ ↦ granted new_id owner_tag g
  | res_busy r ↦ refused r g
  | res_err ↦ failed g
]

unfoldable pub get :
    Bool
    → Control
    → List Resource
    → Text
    → Text
    → ResourceConfig
    → Text
    → Option CheckResources
    → Grant
unfolding ask answered
get could_post c rl handler owner_tag config new_id answer =
    let untouched : Grant = record {
      response = ctl_ok;
      control = c;
      rl = rl;
      handler = handler;
      config = config;
      effects = [];
    } in
    let hit = record c { stat = record (c.stat) { hits = bump c.stat.hits } } in
    let got = ask could_post hit rl answer in
    if is_empty rl
    then untouched
    else answered new_id owner_tag got (record untouched {
      control = record hit { redis = got.redis };
      rl = got.rl;
      effects = got.effects;
    })

-- The handler is found.
unfoldable pub put_entry : Bool → Control → Text → HandlersEntry → Control × List Effect
put_entry could_post c h e =
    let erased = record c { handlers = Map.erase h c.handlers } in
    let (r, es) = Redis.put could_post c.redis e.resources in
    if e.valid
    then (if is_empty e.resources then (erased, []) else (record erased { redis = r }, es))
    else (erased, [])

unfoldable pub put : Bool → Control → Text → Control × List Effect
unfolding put_entry
put could_post c h =
    if is_empty h
    then (c, [])
    else elim (Map.find h c.handlers) [ none ↦ (c, []) | some e ↦ put_entry could_post c h e ]

unfoldable pub invalidate_all : Map Text HandlersEntry → Map Text HandlersEntry
invalidate_all [] = []
invalidate_all ((h, e) ∷ m) = (h, record e { valid = false }) ∷ invalidate_all m

unfoldable pub invalidate_resources : Bool → Control → Control × List Effect
unfolding invalidate_all
invalidate_resources could_post c =
    let (r, es) = Redis.invalidate could_post c.redis in
    (record c { container_ready = false; handlers = invalidate_all c.handlers; redis = r }, es)

abbrev pub clear_stats : Control → Control
clear_stats c = record c { stat = clear }
