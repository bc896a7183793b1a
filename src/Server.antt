-- ===== src/Server.antt =====
-- Class Servant of src/mammut-server.cpp, its loop `run` over one connection, and
-- `checkDependencies`.
pub mod Sessions
use mammut.Common.{
  ℕ, zero, suc, Bool, true, false, not, ◌&&◌, ◌||◌, Option, some, none, List, [], ◌∷◌,
  if◌then◌else◌, Error, Result, ok, throw, Text, text_eq,
}
use mammut.Utils.Strings.{get_module_name_from_message_id}

-- `ModulesMask`; a flag is set where its number is not 0.
pub record ModulesMask : Type 0 where
  pub cpufreq : Bool
  pub topology : Bool
  pub energy : Bool

-- `checkDependencies`
pub check_dependencies : ModulesMask → Bool
check_dependencies mm =
    if mm.cpufreq && not mm.topology
    then false
    else if mm.energy && not mm.topology
    then false
    else true

-- A `std::runtime_error`, which the loop answers; any other exception ends it.
unfoldable pub is_runtime_error : Error → Bool
is_runtime_error Error.out_of_range = false
is_runtime_error Error.uninitialised = false
is_runtime_error _ = true

-- What reaches the client for an exception: the server answers a `std::runtime_error`, and closes
-- the connection on any other, as the `std::out_of_range` of `at`.
unfoldable pub client_error : Error → Error
client_error Error.out_of_range = Error.connection_closed
client_error Error.uninitialised = Error.uninitialised
client_error _ = Error.remote_exception

unfoldable pub told : {A : Type 0} → Result A → Result A
told (ok a) = ok a
told (throw e) = throw (client_error e)

-- `processMessage` of a module: none where it returns false.
abbrev pub Handler : Type 0 → Type 0
Handler W = W → Text → Text → W × Result (Option (Text × Text))

-- The connection: `receive` and `send` of class Communicator, and the text `what()` of an
-- exception.
pub record Channel (W : Type 0) : Type 1 where
  pub receive : W → W × Result (Option (Text × Text))
  pub send : W → Text → Text → W × Result (Unit {0})
  pub what : Error → Text

-- How a round of the loop ends.
pub data Turn : Type 0 where
  served : Turn
  refused : Turn
  closed : Turn
  fatal_communication : Turn
  fatal_processing : Turn

module _ {W : Type 0} (channel : Channel W) where
  -- `_moduleDispatcher`; a module that could not be created is not there.
  pub find : List (Text × Handler W) → Text → Option (Handler W)
  find [] module_id = none
  find ((name, h) ∷ modules) module_id =
      let later = find modules module_id in if text_eq name module_id then some h else later

  after_exception : W × Result (Unit {0}) → W × Turn
  after_exception (w, ok sent) = (w, Turn.refused)
  after_exception (w, throw e) = (w, Turn.fatal_communication)

  -- The handlers of exceptions.
  on_exception : W → Error → W × Turn
  on_exception w e =
      if is_runtime_error e
      then after_exception (channel.send w [] (channel.what e))
      else (w, Turn.fatal_processing)

  after_response : W × Result (Unit {0}) → W × Turn
  after_response (w, ok sent) = (w, Turn.served)
  after_response (w, throw e) = on_exception w e

  respond : W × Result (Option (Text × Text)) → W × Turn
  respond (w, throw e) = on_exception w e
  respond (w, ok none) = on_exception w Error.processing_failed
  respond (w, ok (some (message_id, message))) = after_response (channel.send w message_id message)

  dispatch : List (Text × Handler W) → W → Text → Text → Result Text → W × Turn
  dispatch modules w message_id message (throw e) = on_exception w e
  dispatch modules w message_id message (ok module_id) = elim (find modules module_id) [
    | none ↦ on_exception w Error.not_activated
    | some h ↦ respond (h w message_id message)
  ]

  on_receive : List (Text × Handler W) → W × Result (Option (Text × Text)) → W × Turn
  on_receive modules (w, throw e) = on_exception w e
  on_receive modules (w, ok none) = (w, Turn.closed)
  on_receive modules (w, ok (some (message_id, message))) =
      dispatch modules w message_id message (get_module_name_from_message_id message_id)

  -- One round of the loop.
  pub turn : List (Text × Handler W) → W → W × Turn
  turn modules w = on_receive modules (channel.receive w)

  -- The loop goes on after an answer, be it a response or an exception.
  pub goes_on : Turn → Bool
  goes_on Turn.served = true
  goes_on Turn.refused = true
  goes_on _ = false

  -- `run`, for at most `fuel` rounds; none where the loop is not over then.
  pub run : ℕ → List (Text × Handler W) → W → Option (W × Turn)
  run zero modules w = none
  run (suc fuel) modules w =
      let step = turn modules w in
      let more = run fuel modules step.0 in if goes_on step.1 then more else some step
