-- ===== src/Service.antt =====
-- src/service_registry.c: the table of services that modules offer to one another, its lock, and the
-- barrier that keeps calls out while a library is replaced. Each function here is one stretch that
-- the source runs under the lock; what a thread waits for is written in the result.
pub mod Table
pub mod Barrier
pub mod Removal
mod Examples
use digit.Base.{
  ℕ, ◌+◌, ◌-◌, Bool, true, false, not, ◌&&◌, ◌||◌, Option, none, some, List, [], ◌∷◌, length,
  get_elem?, set, replicate, Text, str_eq, leb, ◌==◌, if◌then◌else◌,
}

-- digit_service_record_t; a handler and a context are addresses.
pub record Slot : Type 0 where
  pub used : Bool
  pub name : Text
  pub handler : ℕ
  pub handler_context : ℕ

-- DIGIT_SERVICE_MAX
abbrev pub service_max : ℕ
service_max = 64

-- memset (record, 0, sizeof *record)
abbrev pub empty_slot : Slot
empty_slot = record { used = false; name = []; handler = 0; handler_context = 0 }

-- The file's variables. `depths` holds the invocation_depth of each thread, by its number, and
-- `drained` tells whether the owner of the transition has returned from digit_service_transition_begin.
pub record Registry : Type 0 where
  pub services : List Slot
  pub count : ℕ
  pub active_calls : ℕ
  pub depths : List ℕ
  pub transitioning : Bool
  pub transition_owner : ℕ
  pub drained : Bool

-- The static initialisers, ensure_init, and the threads before their first call.
unfoldable pub init : ℕ → Registry
init threads = record {
  services = replicate service_max empty_slot;
  count = 0;
  active_calls = 0;
  depths = replicate threads 0;
  transitioning = false;
  transition_owner = 0;
  drained = false;
}

-- owner ()
unfoldable pub owner : ℕ → Registry → Bool
owner thread r = r.transitioning && (thread == r.transition_owner)

abbrev pub depth_in : Option ℕ → ℕ
depth_in none = 0
depth_in (some n) = n

abbrev pub depth : ℕ → Registry → ℕ
depth thread r = depth_in (get_elem? r.depths thread)

unfoldable pub is_named : Text → Slot → Bool
is_named name slot = slot.used && str_eq slot.name name

-- The handler and the context behind a name: the loop of digit_service_invoke.
unfoldable pub lookup : Text → List Slot → Option (ℕ × ℕ)
lookup name [] = none
lookup name (slot ∷ slots) =
    if is_named name slot then some (slot.handler, slot.handler_context) else lookup name slots

unfoldable pub is_taken : Text → List Slot → Bool
is_taken name [] = false
is_taken name (slot ∷ slots) = is_named name slot || is_taken name slots

-- The first slot that is free takes the record.
abbrev behind : Slot → Option (List Slot) → Option (List Slot)
behind slot none = none
behind slot (some slots) = some (slot ∷ slots)

unfoldable pub put_free : Slot → List Slot → Option (List Slot)
put_free new [] = none
put_free new (slot ∷ slots) =
    if slot.used then behind slot (put_free new slots) else some (new ∷ slots)

abbrev added_to : Registry → Option (List Slot) → Bool × Registry
added_to r none = (false, r)
added_to r (some slots) = (true, record r { services = slots; count = r.count + 1 })

abbrev pub is_name : ℕ → Text → Bool
is_name name_max name = not (length name == 0) && not (leb name_max (length name))

-- A transition that another thread owns.
abbrev pub excluded : ℕ → Registry → Bool
excluded thread r = r.transitioning && not (owner thread r)

-- The body of digit_service_register behind its test for null pointers.
abbrev pub service_record : Text → ℕ → ℕ → Slot
service_record name handler context = record {
  used = true;
  name = name;
  handler = handler;
  handler_context = context;
}

unfoldable pub register_named : ℕ → ℕ → Text → ℕ → ℕ → Registry → Bool × Registry
unfolding is_taken put_free owner
register_named name_max thread name handler context r =
    if is_name name_max name && not (excluded thread r) && not (is_taken name r.services)
    then added_to r (put_free (service_record name handler context) r.services)
    else (false, r)

-- digit_service_register; `none` is a null pointer.
unfoldable pub register : ℕ → ℕ → Option Text → Option ℕ → ℕ → Registry → Bool × Registry
unfolding register_named
register name_max thread (some name) (some handler) context r =
    register_named name_max thread name handler context r
register name_max thread _ _ context r = (false, r)

-- Where digit_service_unregister stands when it leaves the lock: it returned, or waits with the slot
-- that it has chosen.
pub data Outcome : Type 0 where
  returned : Bool → Outcome
  waiting : ℕ → Outcome

-- The loop's test, and what follows it.
unfoldable pub unregister_slot : ℕ → Registry → Outcome × Registry
unregister_slot i r = if not (r.active_calls == 0) && not r.transitioning then (waiting i, r) else (
  returned true,
  record r {
    services = set r.services i empty_slot;
    count = if r.count == 0 then 0 else r.count - 1;
  },
)

-- The first slot of that name and context.
abbrev later : Option ℕ → Option ℕ
later none = none
later (some i) = some (i + 1)

unfoldable pub find_owned : Text → ℕ → List Slot → Option ℕ
unfolding is_named
find_owned name context [] = none
find_owned name context (slot ∷ slots) =
    if is_named name slot && (slot.handler_context == context)
    then some 0
    else later (find_owned name context slots)

abbrev unregister_found : Registry → Option ℕ → Outcome × Registry
unregister_found r none = (returned false, r)
unregister_found r (some i) = unregister_slot i r

-- digit_service_unregister up to its first wait or its return; it goes on with unregister_slot.
unfoldable pub unregister : ℕ → Text → ℕ → Registry → Outcome × Registry
unfolding find_owned unregister_slot owner
unregister thread name context r =
    if excluded thread r
    then (returned false, r)
    else unregister_found r (find_owned name context r.services)

-- A thread enters a handler.
unfoldable pub enter_call : ℕ → Registry → Registry
enter_call thread r = record r {
  active_calls = r.active_calls + 1;
  depths = set r.depths thread (depth thread r + 1);
}

abbrev invoke_found : ℕ → Registry → Option (ℕ × ℕ) → Option (ℕ × ℕ) × Registry
invoke_found thread r none = (none, r)
invoke_found thread r (some handler) = (some handler, enter_call thread r)

-- digit_service_invoke up to the handler's call; `none` is STNLABZ_MODULE_ERR_NOT_FOUND.
unfoldable pub invoke_begin : ℕ → Text → Registry → Option (ℕ × ℕ) × Registry
unfolding lookup owner enter_call
invoke_begin thread name r =
    if excluded thread r && (depth thread r == 0)
    then (none, r)
    else invoke_found thread r (lookup name r.services)

-- The rest of it, after the handler has returned.
unfoldable pub invoke_end : ℕ → Registry → Registry
invoke_end thread r = record r {
  active_calls = r.active_calls - 1;
  depths = set r.depths thread (depth thread r - 1);
}

-- digit_service_transition_begin up to its wait; `false` is its return of 0.
unfoldable pub transition_begin : ℕ → Registry → Bool × Registry
transition_begin thread r =
    if r.transitioning
    then (false, r)
    else (true, record r { transitioning = true; transition_owner = thread; drained = false })

-- The wait of the owner: it ends when no call is active.
unfoldable pub transition_wait : ℕ → Registry → Option Registry
unfolding owner
transition_wait thread r =
    if owner thread r && (r.active_calls == 0) then some (record r { drained = true }) else none

-- digit_service_transition_end
unfoldable pub transition_end : ℕ → Registry → Registry
unfolding owner
transition_end thread r =
    if owner thread r then record r { transitioning = false; drained = false } else r
