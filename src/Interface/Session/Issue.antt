-- ===== src/Interface/Session/Issue.antt =====
-- modules/interface/src/session_store.c: what a session that is issued resolves to.
use digit.Base.{
  ℕ, ◌+◌, ◌-◌, ◌^◌, ◌<◌, ◌≤◌, ◌≡◌, refl, sym, ap, ◌∙◌, Bool, true, false, not, ◌&&◌, ◌||◌, Option,
  none, some, List, [], ◌∷◌, length, All, Text, str_eq, str_eq→eq, leb, if◌then◌else◌, arith,
  Bool-cases, Option-cases, inl, inr,
}
use digit.Interface.Session.{
  Entry, Draw, lifetime, id_size, identity_valid, token_valid, session_equal, random, hex, put_free,
  session, issue, find_session, fitting, resolve,
}
use digit.Interface.Session.Tokens.{IsDrawn, session_equal→eq, token_valid-hex, token_valid-length}
use digit.Interface.Session.Resolve.{
  answers, find_session-answers, find_session-past, session_equal-str_eq, resolve_found,
  resolve_refused,
}

-- What an issue that succeeds goes through.
pub record IsIssue (identity : Text) (now : ℕ) (draws : List Draw) (store : List Entry)
    (token : Text) (next : List Entry) : Type 0 where
  pub identity_ok : identity_valid (some identity) ≡ true
  pub positive : 0 < now
  pub in_range : now ≤ 2 ^ 63 - 1 - lifetime
  pub bytes : Text
  pub drawn : random 32 draws ≡ some bytes
  pub made : hex bytes ≡ token
  pub put : put_free now (session identity token now) store ≡ some next

pub issue-IsIssue :
    (authentication : ℕ) (identity : Text) (now : ℕ) (draws : List Draw) (store : List Entry)
    (token : Text) (next : List Entry)
    → issue authentication identity now draws store ≡ (some token, next)
    → IsIssue identity now draws store token next
unfolding issue
issue-IsIssue authentication identity now draws store token next e =
    elim (Option-cases (random 32 draws)) [
      | inl lost ↦ ground (arith, e, lost)
      | inr (bytes, drawn) ↦
          elim (Option-cases (put_free now (session identity (hex bytes) now) store)) [
            | inl full ↦ ground (arith, e, drawn, full)
            | inr (entries, put) ↦
                let made : hex bytes ≡ token = ground (arith, e, drawn, put) in
                let same : entries ≡ next = ground (arith, e, drawn, put) in
                record {
                  identity_ok = ground (arith, e);
                  positive = ground (arith, e);
                  in_range = ground (arith, e);
                  bytes = bytes;
                  drawn = drawn;
                  made = made;
                  put = rw (← made, ← same) put;
                }
          ]
    ]

module _ (now later : ℕ) (order : now ≤ later) (new : Entry) (used : new.active ≡ true) where
  -- The loop of the resolution over a store that a session was put into.
  put_free-find_session :
      (other : Text) (entries more : List Entry)
      → (session_equal other new.token 64 ≡ true → other ≡ new.token)
      → find_session new.token later entries ≡ none
      → put_free now new entries ≡ some more
      → find_session other later more
        ≡ (if answers other later new then some new else find_session other later entries)
  unfolding put_free find_session
  put_free-find_session other [] more same fresh e = ground arith
  put_free-find_session other (d ∷ entries) more same fresh e =
      elim (Bool-cases (not d.active || leb d.expires_at now)) [
        | inl free ↦
            let there : new ∷ entries ≡ more = ground (arith, e, free) in
            let over : answers other later d ≡ false = ground (arith, free, order) in
            rw (← there, over) refl
        | inr taken ↦ elim (Option-cases (put_free now new entries)) [
          | inl full ↦ ground (arith, e, full, taken)
          | inr (rest, put) ↦
              let there : d ∷ rest ≡ more = ground (arith, e, taken, put) in
              ap (find_session other later) (sym there)
              ∙ kept rest (λ f. put_free-find_session other entries rest same f put)
        ]
      ]
    where
      first : answers new.token later d ≡ false
      first = elim (Bool-cases (answers new.token later d)) [
        | inl stops ↦
            absurd (ground (arith, fresh, find_session-answers new.token later d entries stops))
        | inr past ↦ past
      ]

      apart : answers other later d ≡ true → answers other later new ≡ false
      apart yes' = elim (Bool-cases (session_equal other new.token 64)) [
        | inl m ↦
            let both : answers new.token later d ≡ true =
              ap (λ (t : Text). answers t later d) (sym (same m)) ∙ yes' in
            absurd (ground (arith, both, first))
        | inr m ↦ ground (arith, m)
      ]

      kept :
          (rest : List Entry)
          → (find_session new.token later entries ≡ none
              → find_session other later rest
                ≡ (if answers other later new then some new else find_session other later entries))
          → find_session other later (d ∷ rest)
            ≡ (if answers other later new then some new else find_session other later (d ∷ entries))
      kept rest rec = elim (Bool-cases (answers other later d)) [
        | inl yes' ↦ rw (yes', apart yes') refl
        | inr past ↦ rw past (rec (sym (find_session-past new.token later d entries first) ∙ fresh))
      ]

pub identity_fits :
    (identity : Text) (size : ℕ)
    → identity_valid (some identity) ≡ true
    → id_size ≤ size
    → leb size (length identity) ≡ false
unfolding identity_valid
identity_fits identity size valid room = ground (arith, valid, room)

fitting_new :
    (identity token : Text) (now size : ℕ) (b : Bool) (o : Option Entry)
    → leb size (length identity) ≡ false
    → fitting size (if b then some (session identity token now) else o)
      ≡ (if b then some identity else fitting size o)
fitting_new identity token now size true o fits = rw fits refl
fitting_new identity token now size false o fits = refl

-- Once a session was issued for an identity, with bytes from the system and a token that no live
-- session had, the token is well formed, and at every later time it resolves to that identity for as
-- long as the lifetime lasts; every other token, and this one afterwards, resolves to what it would
-- have resolved to without the issue.
pub resolve-issue :
    (authentication : ℕ) (identity : Text) (now : ℕ) (draws : List Draw) (store : List Entry)
    (token : Text) (next : List Entry) (other : Text) (later size : ℕ)
    → issue authentication identity now draws store ≡ (some token, next)
    → All IsDrawn draws
    → now ≤ later
    → find_session token later store ≡ none
    → id_size ≤ size
    → (token_valid (some token) ≡ true)
      × (resolve next (some other) later size ≡ (
          if str_eq other token && not (leb (now + lifetime) later)
          then some identity
          else resolve store (some other) later size))
resolve-issue authentication identity now draws store token next other later size e drawn order
      fresh room =
    (
      token_ok,
      elim (Bool-cases (token_valid (some other))) [
        | inl valid ↦ live valid
        | inr invalid ↦
            let apart : str_eq other token ≡ false = elim (Bool-cases (str_eq other token)) [
              | inl same ↦ absurd (
                  ground (
                    arith,
                    invalid,
                    token_ok,
                    ap (λ (t : Text). token_valid (some t)) (str_eq→eq other token same),
                  ))
              | inr differs ↦ differs
            ] in
            resolve_refused next other later size invalid
            ∙ rw apart (sym (resolve_refused store other later size invalid))
      ],
    )
  where
    i : IsIssue identity now draws store token next
    i = issue-IsIssue authentication identity now draws store token next e

    token_ok : token_valid (some token) ≡ true
    token_ok =
        ap (λ (t : Text). token_valid (some t)) (sym i.made)
        ∙ token_valid-hex draws i.bytes drawn i.drawn

    live :
        token_valid (some other) ≡ true
        → resolve next (some other) later size ≡ (
            if str_eq other token && not (leb (now + lifetime) later)
            then some identity
            else resolve store (some other) later size)
    live valid =
        let size_other = token_valid-length other valid in
        let size_token = token_valid-length token token_ok in
        let pos : 0 < later = omega (arith, i.positive, order) in
        let space : 0 < size = omega (arith, room) in
        let new = session identity token now in
        let fits = identity_fits identity size i.identity_ok room in
        let test : answers other later new
            ≡ (str_eq other token && not (leb (now + lifetime) later)) =
          ground (arith, session_equal-str_eq other token size_other size_token) in
        resolve_found next other later size valid pos space
        ∙ ap (fitting size) (
            put_free-find_session now later order new refl other store next
              (session_equal→eq other token 64 size_other size_token) fresh i.put)
        ∙ fitting_new identity token now size (answers other later new)
            (find_session other later store) fits
        ∙ (λ k.
            if test k
            then some identity
            else sym (resolve_found store other later size valid pos space) k)
