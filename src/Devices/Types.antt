-- ===== src/Devices/Types.antt =====
-- `ResourceIdentity`, `DeviceResource` and `_Record` of src/embodirun/devices/lifecycle.py.
use embodi_run.Base.{
  ℕ, ◌≡◌, ◌↔◌, Bool, true, false, ◌&&◌, Option, List, ◌∷◌, String, arith, str_eq, eq_iff,
}
use embodi_run.Base.Classes.{Eq}

-- An identity stands for its own key, as where neither the node nor the kind holds a colon.
pub record Identity : Type 0 where
  pub node : String
  pub kind : String
  pub value : String

-- `physical_key`, which names the process lock.
pub record PhysicalKey : Type 0 where
  pub kind : String
  pub value : String

abbrev pub physical_key : Identity → PhysicalKey
physical_key i = record { kind = i.kind; value = i.value }

abbrev pub physical_beq : PhysicalKey → PhysicalKey → Bool
physical_beq a b = str_eq a.kind b.kind && str_eq a.value b.value

pub physical_beq_iff : (a b : PhysicalKey) → (physical_beq a b ≡ true) ↔ (a ≡ b)
physical_beq_iff a b = ground (arith, eq_iff a.kind b.kind, eq_iff a.value b.value)

abbrev pub identity_beq : Identity → Identity → Bool
identity_beq a b = str_eq a.node b.node && physical_beq (physical_key a) (physical_key b)

pub identity_beq_iff : (a b : Identity) → (identity_beq a b ≡ true) ↔ (a ≡ b)
identity_beq_iff a b =
    ground (arith, eq_iff a.node b.node, eq_iff a.kind b.kind, eq_iff a.value b.value)

instance abbrev pub identity_eq : Eq Identity
identity_eq = record { beq = identity_beq; beq_iff = identity_beq_iff }

-- `DeviceResource`, less its three callbacks, whose answers are arguments of the operations.
pub record Resource : Type 0 where
  pub identity : Identity
  pub external_owner : Bool
  pub components : List Identity

abbrev pub identities : Resource → List Identity
identities r = r.identity ∷ r.components

pub data DeviceState : Type 0 where
  opened external uncertain : DeviceState

abbrev pub is_uncertain : DeviceState → Bool
is_uncertain uncertain = true
is_uncertain _ = false

pub data DeviceFault : Type 0 where
  manager_closed busy_closing busy_locked conflicting_owner conflicting_components : DeviceFault
  still_held : DeviceFault
  state_unreadable unresolved_state prepare_refused prepare_failed : String → DeviceFault
  open_failed close_failed close_unrecorded : String → DeviceFault

-- How far the closing of a record is, the local `error` of `_close_record_once`: the closer is not
-- done; it is, and the process locks are released; or it or the clearing of its markers raised.
pub data ClosingEnd : Type 0 where
  closer_pending locks_released : ClosingEnd
  closer_raised : DeviceFault → ClosingEnd

abbrev pub is_released : ClosingEnd → Bool
is_released locks_released = true
is_released _ = false

-- `_Record`, with the end of its closing. `locks` are the process locks that it holds: none, once they
-- are released. `serial` tells apart two records that one key has had in turn.
pub record Entry : Type 0 where
  pub serial : ℕ
  pub resource : Resource
  pub locks : List PhysicalKey
  pub references : ℕ
  pub prepared : Bool
  pub state : DeviceState
  pub error : Option String
  pub uncertain_before : Bool
  pub leases : List ℕ
  pub closing : Bool
  pub close_error : Option DeviceFault
  pub closing_end : ClosingEnd

-- What a callback did.
pub data Answer : Type 0 where
  done : Answer
  failed : String → Answer

-- What `preparer` did: `refused` is `RobotPreparationRefused`.
pub data PrepareAnswer : Type 0 where
  prepared : PrepareAnswer
  refused prepare_raised : String → PrepareAnswer
