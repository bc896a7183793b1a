-- ===== src/Energy/PowerCaps.antt =====
-- Class PowerCapperLinux of src/energy/energy-linux.cpp, for a library built with raplcap, and the
-- rollback points of class Energy of src/energy/energy.cpp. Watts and seconds, `double` in the
-- source, are only passed on here.
pub mod Restores
mod Examples
use mammut.Common.{
  ℕ, zero, suc, Bool, true, false, not, Option, some, none, List, [], ◌∷◌, ◌==◌, if◌then◌else◌,
  Error, Result, ok, throw, ◌>>=◌, or_throw,
}

-- `raplcap_limit`
pub record Limit : Type 0 where
  pub watts : ℕ
  pub seconds : ℕ

pub record PowerCap : Type 0 where
  pub value : ℕ
  pub window : ℕ
  pub prepared_only : Bool

-- The functions of raplcap that are used, on the state of the machine, a socket and a zone. none
-- stands for an error that is returned; the pointers to a limit may be NULL.
pub record Raplcap (S : Type 0) : Type 0 where
  pub get_limits : S → ℕ → ℕ → Option (Limit × Limit)
  pub set_limits : S → ℕ → ℕ → Option Limit → Option Limit → Option S
  pub is_zone_enabled : S → ℕ → ℕ → Bool
  pub set_zone_enabled : S → ℕ → ℕ → Bool → Option S
  pub is_zone_supported : S → ℕ → ℕ → Bool

-- A PowerCapperLinux that `init` found good: `_zone` and `_sockets`.
pub record PowerCapper : Type 0 where
  pub zone : ℕ
  pub sockets : ℕ

module _ {S : Type 0} (rc : Raplcap S) where
  -- The loop of `init` over the sockets below a number.
  supported_below : S → ℕ → ℕ → Bool
  supported_below s zone zero = true
  supported_below s zone (suc n) =
      let rest = supported_below s zone n in if rc.is_zone_supported s n zone then rest else false

  -- `init`, for the number of sockets and whether `raplcap_init` succeeded.
  pub init : S → ℕ → ℕ → Bool → Option PowerCapper
  init s zone sockets initialised =
      if sockets == 0
      then none
      else if not initialised
      then none
      else if supported_below s zone sockets
      then some (record { zone = zone; sockets = sockets })
      else none

  -- `get(socketId, windowId)`
  pub get_window : S → PowerCapper → ℕ → ℕ → Result PowerCap
  get_window s c socket window =
      or_throw Error.read_failed (rc.get_limits s socket c.zone) >>= λ limits.
      ok (with_limit (if window == 0 then limits.0 else limits.1))
    where
      with_limit : Limit → PowerCap
      with_limit l = record {
        value = l.watts;
        window = l.seconds;
        prepared_only = not (rc.is_zone_enabled s socket c.zone);
      }

  -- `get(socketId)`
  pub get_socket : S → PowerCapper → ℕ → Result (PowerCap × PowerCap)
  get_socket s c socket =
      get_window s c socket 0 >>= λ first. get_window s c socket 1 >>= λ second. ok (first, second)

  -- The loop of `get()`, with the sockets left and the next socket.
  get_loop : S → PowerCapper → ℕ → ℕ → Result (List (PowerCap × PowerCap))
  get_loop s c zero socket = ok []
  get_loop s c (suc left) socket =
      get_socket s c socket >>= λ caps. get_loop s c left (suc socket) >>= λ rest. ok (caps ∷ rest)

  -- `get()`
  pub get_all : S → PowerCapper → Result (List (PowerCap × PowerCap))
  get_all s c = get_loop s c c.sockets 0

  -- `set(windowId, socketId, cap)`
  pub set_window : S → PowerCapper → ℕ → ℕ → PowerCap → Result S
  set_window s c window socket cap =
      or_throw Error.write_failed (
        if window == 0
        then rc.set_limits s socket c.zone (some limit) none
        else rc.set_limits s socket c.zone none (some limit))
      >>= λ s'.
          or_throw Error.write_failed (rc.set_zone_enabled s' socket c.zone (not cap.prepared_only))
    where
      limit : Limit
      limit = record { watts = cap.value; seconds = cap.window }

  -- `set(socketId, cap)`
  pub set_socket : S → PowerCapper → ℕ → PowerCap → Result S
  set_socket s c socket cap = set_window s c 0 socket cap >>= λ s'. set_window s' c 1 socket cap

  -- `Energy::getRollbackPoint`, over the power cappers, of which some are NULL.
  pub get_rollback_point :
      S → List (Option PowerCapper) → Result (List (List (PowerCap × PowerCap)))
  get_rollback_point s [] = ok []
  get_rollback_point s (none ∷ cs) = get_rollback_point s cs >>= λ rest. ok ([] ∷ rest)
  get_rollback_point s (some c ∷ cs) =
      get_all s c >>= λ caps. get_rollback_point s cs >>= λ rest. ok (caps ∷ rest)

  -- The loop of `rollback` over the sockets of a power capper.
  rollback_sockets : S → PowerCapper → ℕ → List (PowerCap × PowerCap) → Result S
  rollback_sockets s c socket [] = ok s
  rollback_sockets s c socket (caps ∷ rest) = set_window s c 0 socket caps.0 >>= λ s1.
      set_window s1 c 1 socket caps.1 >>= λ s2. rollback_sockets s2 c (suc socket) rest

  -- `Energy::rollback`
  pub rollback : S → List (Option PowerCapper) → List (List (PowerCap × PowerCap)) → Result S
  rollback s (some c ∷ cs) (caps ∷ rest) = rollback_sockets s c 0 caps >>= λ s'. rollback s' cs rest
  rollback s (none ∷ cs) (caps ∷ rest) = rollback s cs rest
  rollback s _ _ = ok s
