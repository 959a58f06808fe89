-- ===== src/Service/Barrier.antt =====
-- src/service_registry.c: the threads' calls in any order, as steps.
use digit.Base.{
  ℕ, zero, suc, ◌+◌, ◌-◌, ◌<◌, ◌≤◌, ◌≡◌, ◌≢◌, ◌⊎◌, refl, sym, subst, ◌∙◌, Bool, true, false, ◌&&◌,
  Option, none, some, List, [], ◌∷◌, length, get_elem?, set, replicate, Text, get_elem?-set_ne,
  if◌then◌else◌, ◌==◌, arith, Bool-cases, inl, inr,
}
use digit.Service.{
  invoke_found, Registry, init, owner, depth, depth_in, register, unregister, unregister_slot,
  invoke_begin, invoke_end, transition_begin, transition_wait, transition_end, lookup, enter_call,
  excluded,
}

-- One stretch under the lock, by some thread. A handler returns on the thread that called it.
pub data Step (name_max : ℕ) : Registry → Registry → Type 0 where
  registers :
      (thread : ℕ) (name : Option Text) (handler : Option ℕ) (context : ℕ) (r : Registry)
      → Step name_max r (register name_max thread name handler context r).1
  unregisters :
      (thread : ℕ) (name : Text) (context : ℕ) (r : Registry)
      → Step name_max r (unregister thread name context r).1
  wakes : (i : ℕ) (r : Registry) → Step name_max r (unregister_slot i r).1
  invokes :
      (thread : ℕ) (name : Text) (r : Registry)
      → thread < length r.depths
      → Step name_max r (invoke_begin thread name r).1
  returns :
      (thread : ℕ) (r : Registry)
      → thread < length r.depths
      → 0 < depth thread r
      → Step name_max r (invoke_end thread r)
  begins : (thread : ℕ) (r : Registry) → Step name_max r (transition_begin thread r).1
  drains :
      (thread : ℕ) (r next : Registry) → transition_wait thread r ≡ some next → Step name_max r next
  ends : (thread : ℕ) (r : Registry) → Step name_max r (transition_end thread r)

-- The states that some interleaving of the threads reaches.
pub data Reachable (name_max threads : ℕ) : Registry → Type 0 where
  start : Reachable name_max threads (init threads)
  next :
      (r s : Registry)
      → Reachable name_max threads r
      → Step name_max r s
      → Reachable name_max threads s

abbrev pub sum : List ℕ → ℕ
sum [] = 0
sum (n ∷ ns) = n + sum ns

sum-set :
    (ns : List ℕ) (i v : ℕ)
    → i < length ns
    → sum (set ns i v) + depth_in (get_elem? ns i) ≡ sum ns + v
sum-set [] i v h = elim h [ ]
sum-set (n ∷ ns) zero v h = omega arith
sum-set (n ∷ ns) (suc i) v h = omega (arith, sum-set ns i v (omega arith))

sum-get : (ns : List ℕ) (i : ℕ) → depth_in (get_elem? ns i) ≤ sum ns
sum-get [] i = omega arith
sum-get (n ∷ ns) zero = omega arith
sum-get (n ∷ ns) (suc i) = omega (arith, sum-get ns i)

sum-replicate : (n : ℕ) → sum (replicate n 0) ≡ 0
sum-replicate zero = refl
sum-replicate (suc n) = omega (arith, sum-replicate n)

-- No thread but the owner is inside a handler.
abbrev pub IsQuiet : Registry → Type 0
IsQuiet r = (thread : ℕ) → thread ≢ r.transition_owner → depth thread r ≡ 0

record IsGuarded (r : Registry) : Type 0 where
  counted : r.active_calls ≡ sum r.depths
  held : r.drained ≡ true → r.transitioning ≡ true
  quiet : r.drained ≡ true → IsQuiet r

init-IsGuarded : (threads : ℕ) → IsGuarded (init threads)
unfolding init
init-IsGuarded threads = record {
  counted = sym (sum-replicate threads);
  held = λ e. cc;
  quiet = λ e. cc;
}

-- A step that touches the table only.
abbrev SameCalls : Registry → Registry → Type 0
SameCalls r s =
    (s.active_calls ≡ r.active_calls)
    × (s.depths ≡ r.depths)
    × (s.transitioning ≡ r.transitioning)
    × (s.transition_owner ≡ r.transition_owner)
    × (s.drained ≡ r.drained)

same-IsGuarded : (r s : Registry) → SameCalls r s → IsGuarded r → IsGuarded s
same-IsGuarded r s (a, d, t, o, w) g = record {
  counted = rw (a, d) g.counted;
  held = λ e. rw t (g.held (sym w ∙ e));
  quiet = λ e thread ne. rw d (g.quiet (sym w ∙ e) thread (λ x. ne (x ∙ sym o)));
}

register-SameCalls :
    (name_max thread : ℕ) (name : Option Text) (handler : Option ℕ) (context : ℕ) (r : Registry)
    → SameCalls r (register name_max thread name handler context r).1
unfolding register
register-SameCalls name_max thread (some name) (some handler) context r = ground arith
register-SameCalls name_max thread (some name) none context r = (refl, refl, refl, refl, refl)
register-SameCalls name_max thread none handler context r = (refl, refl, refl, refl, refl)

unregister_slot-SameCalls : (i : ℕ) (r : Registry) → SameCalls r (unregister_slot i r).1
unfolding unregister_slot
unregister_slot-SameCalls i r = ground arith

unregister-SameCalls :
    (thread : ℕ) (name : Text) (context : ℕ) (r : Registry)
    → SameCalls r (unregister thread name context r).1
unfolding unregister
unregister-SameCalls thread name context r = ground arith

depth-set_ne :
    (ns : List ℕ) (i j v : ℕ)
    → i ≢ j
    → depth_in (get_elem? (set ns i v) j) ≡ depth_in (get_elem? ns j)
depth-set_ne ns i j v ne = rw (get_elem?-set_ne ns i j v ne) refl

enter-IsGuarded :
    (thread : ℕ) (r : Registry)
    → thread < length r.depths
    → (r.drained ≡ true → thread ≡ r.transition_owner)
    → IsGuarded r
    → IsGuarded (enter_call thread r)
unfolding enter_call
enter-IsGuarded thread r in' only g = record {
  counted = omega (arith, sum-set r.depths thread (depth thread r + 1) in', g.counted);
  held = g.held;
  quiet = λ e other ne.
      depth-set_ne r.depths thread other (depth thread r + 1) (λ x. ne (sym x ∙ only e))
      ∙ g.quiet e other ne;
}

end-IsGuarded :
    (thread : ℕ) (r : Registry)
    → thread < length r.depths
    → 0 < depth thread r
    → IsGuarded r
    → IsGuarded (invoke_end thread r)
unfolding invoke_end
end-IsGuarded thread r in' pos g = record {
  counted =
      omega (
        arith,
        sum-set r.depths thread (depth thread r - 1) in',
        sum-get r.depths thread,
        g.counted,
      );
  held = g.held;
  quiet = λ e other ne.
      depth-set_ne r.depths thread other (depth thread r - 1) (λ x.
        let z : depth thread r ≡ 0 = rw x (g.quiet e other ne) in absurd (omega (arith, z, pos)))
      ∙ g.quiet e other ne;
}

if-IsGuarded :
    (b : Bool) (r s : Registry)
    → (b ≡ true → IsGuarded r)
    → (b ≡ false → IsGuarded s)
    → IsGuarded (if b then r else s)
if-IsGuarded true r s kr ks = kr refl
if-IsGuarded false r s kr ks = ks refl

-- A thread that may call while the transition is drained owns it.
caller-owns :
    (thread : ℕ) (r : Registry)
    → IsGuarded r
    → (excluded thread r && (depth thread r == 0)) ≡ false
    → r.drained ≡ true
    → thread ≡ r.transition_owner
unfolding owner
caller-owns thread r g go e = elim (Bool-cases (thread == r.transition_owner)) [
  | inl same ↦ ground (arith, same)
  | inr other ↦
      let z = g.quiet e thread (λ x. ground (arith, other, x)) in
      let t = g.held e in ground (arith, go, z, t, other)
]

call-IsGuarded :
    (thread : ℕ) (name : Text) (r : Registry)
    → thread < length r.depths
    → IsGuarded r
    → IsGuarded (invoke_begin thread name r).1
unfolding invoke_begin
call-IsGuarded thread name r in' g =
    go (excluded thread r && (depth thread r == 0)) (caller-owns thread r g)
      (lookup name r.services)
  where
    go :
        (b : Bool)
        → (b ≡ false → r.drained ≡ true → thread ≡ r.transition_owner)
        → (o : Option (ℕ × ℕ)) → IsGuarded (if b then (none, r) else invoke_found thread r o).1
    go true only o = g
    go false only none = g
    go false only (some h) = enter-IsGuarded thread r in' (only refl) g

begin-IsGuarded :
    (thread : ℕ) (r : Registry) → IsGuarded r → IsGuarded (transition_begin thread r).1
unfolding transition_begin
begin-IsGuarded thread r g = go r.transitioning
  where
    go :
        (b : Bool)
        → IsGuarded
            (if◌then◌else◌ {A = Bool × Registry} b
              (false, r)
              (
                true,
                record r { transitioning = true; transition_owner = thread; drained = false },
              )).1
    go true = g
    go false = record { counted = g.counted; held = λ e. cc; quiet = λ e. cc }

drain-IsGuarded :
    (thread : ℕ) (r s : Registry) → transition_wait thread r ≡ some s → IsGuarded r → IsGuarded s
unfolding transition_wait owner
drain-IsGuarded thread r s e g =
    let idle : r.active_calls ≡ 0 = ground (arith, e) in
    let held : r.transitioning ≡ true = ground (arith, e) in
    let now : record r { drained = true } ≡ s = ground (arith, e) in
    subst IsGuarded now (record {
      counted = g.counted;
      held = λ _. held;
      quiet = λ _ other _. omega (arith, g.counted, idle, sum-get r.depths other);
    })

finish-IsGuarded : (thread : ℕ) (r : Registry) → IsGuarded r → IsGuarded (transition_end thread r)
unfolding transition_end
finish-IsGuarded thread r g =
    if-IsGuarded (owner thread r) (record r { transitioning = false; drained = false }) r
      (λ _. record { counted = g.counted; held = λ e. cc; quiet = λ e. cc }) (λ _. g)

step-IsGuarded : (name_max : ℕ) (r s : Registry) → Step name_max r s → IsGuarded r → IsGuarded s
step-IsGuarded name_max r _ (registers thread name handler context _) g =
    same-IsGuarded r _ (register-SameCalls name_max thread name handler context r) g
step-IsGuarded name_max r _ (unregisters thread name context _) g =
    same-IsGuarded r _ (unregister-SameCalls thread name context r) g
step-IsGuarded name_max r _ (wakes i _) g = same-IsGuarded r _ (unregister_slot-SameCalls i r) g
step-IsGuarded name_max r _ (invokes thread name _ in') g = call-IsGuarded thread name r in' g
step-IsGuarded name_max r _ (returns thread _ in' pos) g = end-IsGuarded thread r in' pos g
step-IsGuarded name_max r _ (begins thread _) g = begin-IsGuarded thread r g
step-IsGuarded name_max r _ (drains thread _ s e) g = drain-IsGuarded thread r s e g
step-IsGuarded name_max r _ (ends thread _) g = finish-IsGuarded thread r g

Reachable-IsGuarded :
    (name_max threads : ℕ) (r : Registry) → Reachable name_max threads r → IsGuarded r
Reachable-IsGuarded name_max threads _ start = init-IsGuarded threads
Reachable-IsGuarded name_max threads _ (next r s reached step) =
    step-IsGuarded name_max r s step (Reachable-IsGuarded name_max threads r reached)

-- In every state that the threads can reach, the number of active calls is the number of handlers
-- that they are in. For each thread, no transition has drained the calls, or the thread is the owner
-- of the transition, or the transition is still held and the thread is not inside a handler.
pub transition_excludes_calls :
    (name_max threads : ℕ) (r : Registry) (thread : ℕ)
    → Reachable name_max threads r
    → (r.active_calls ≡ sum r.depths)
      × ((r.drained ≡ false)
          ⊎ ((thread ≡ r.transition_owner) ⊎ ((r.transitioning ≡ true) × (depth thread r ≡ 0))))
transition_excludes_calls name_max threads r thread reached =
    let g = Reachable-IsGuarded name_max threads r reached in
    (
      g.counted,
      elim (Bool-cases r.drained) [
        | inr before ↦ inl before
        | inl drained ↦ elim (Bool-cases (thread == r.transition_owner)) [
          | inl same ↦ inr (inl (ground (arith, same)))
          | inr other ↦
              inr (inr (g.held drained, g.quiet drained thread (λ e. ground (arith, other, e))))
        ]
      ],
    )
