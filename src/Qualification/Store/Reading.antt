-- ===== src/Qualification/Store/Reading.antt =====
-- src/qualification_store.c: a printed line is read back as the entry that was printed.
use digit.Base.{
  ℕ, ◌-◌, ◌<◌, ◌≡◌, refl, sym, ap, ◌∙◌, true, false, some, [], ◌∷◌, ◌++◌, append_assoc, append-nil,
  length, take_all, Text, arith, has_char, has_char-append,
}
use digit.Base.Decimal.{is_digit, to_dec, to_dec-IsDigits, EndsNumber, length-to_dec-pos}
use digit.Base.Scan.{until, literal, unsigned_int}
use digit.Base.Scan.Laws.{bind-eq, until-append, unsigned_int-to_dec}
use digit.Base.File.{c_string, c_string_self}
use digit.Qualification.{
  Entry, Inventory, contains_entry, contains, entry_of, is_empty, record_descriptor,
  qualification_max,
}
use digit.Qualification.Laws.{identity}
use digit.Qualification.Store.{
  strip_line_end, scan_fields, descriptor_of, if_recorded, load_fields, is_skipped, load_line,
}
use digit.Qualification.Store.Lines.{
  IsStorable, versions, body, no_char-body, strip-digits, strip-append,
}

module _ (id_max : ℕ) (e : Entry) (st : IsStorable id_max e) where
  fields_of : Text × ℕ × ℕ × ℕ
  fields_of = (e.module_id, e.version_major, e.version_minor, e.version_patch)

  is_empty-id : is_empty e.module_id ≡ false
  is_empty-id = go e.module_id st.shown
    where
      go : (s : Text) → is_skipped s ≡ false → is_empty s ≡ false
      go [] h = cc
      go (c ∷ s) h = refl

  positive : 0 < length e.module_id
  positive = go e.module_id is_empty-id
    where
      go : (s : Text) → is_empty s ≡ false → 0 < length s
      go [] h = absurd (ground arith)
      go (c ∷ s) h = omega arith

  bar_ends : EndsNumber (b'|' ∷ [])
  unfolding is_digit
  bar_ends = refl

  scan_fields-body : scan_fields (body e) ≡ some (fields_of, [])
  unfolding scan_fields body versions literal fields_of
  scan_fields-body =
      bind-eq (until 63 b'|') _ _
        (until-append 63 b'|' e.module_id (b'|' ∷ versions e) positive st.short st.no_bar refl)
      ∙ bind-eq unsigned_int _ _ (unsigned_int-to_dec e.version_major _ st.major bar_ends)
      ∙ bind-eq unsigned_int _ _ (unsigned_int-to_dec e.version_minor _ st.minor bar_ends)
      ∙ bind-eq unsigned_int _ _ patch
    where
      patch : unsigned_int (to_dec e.version_patch) ≡ some (e.version_patch, [])
      patch =
          rw (← append-nil (to_dec e.version_patch))
            (unsigned_int-to_dec e.version_patch [] st.patch tt)

  front : Text
  front =
      e.module_id
      ++ (b'|' ∷ (to_dec e.version_major ++ (b'|' ∷ (to_dec e.version_minor ++ b'|' ∷ []))))

  body-front : body e ++ 10 ∷ [] ≡ front ++ (to_dec e.version_patch ++ 10 ∷ [])
  unfolding body versions front
  body-front = simp append_assoc

  body_eq : body e ≡ front ++ to_dec e.version_patch
  unfolding body versions front
  body_eq = simp append_assoc

  no_nul : has_char 0 (body e ++ 10 ∷ []) ≡ false
  unfolding has_char is_digit
  no_nul = rw (has_char-append 0 (body e) (10 ∷ []), no_char-body 0 e refl refl st.no_nul)

  patch_nonempty : is_empty (strip_line_end (to_dec e.version_patch ++ 10 ∷ [])) ≡ false
  patch_nonempty =
      rw (strip-digits (to_dec e.version_patch) (to_dec-IsDigits e.version_patch))
        (go (to_dec e.version_patch) (length-to_dec-pos e.version_patch))
    where
      go : (s : Text) → 0 < length s → is_empty s ≡ false
      go [] h = absurd (omega arith)
      go (c ∷ s) h = refl

  strip-body : strip_line_end (c_string (body e ++ 10 ∷ [])) ≡ body e
  strip-body =
      ap strip_line_end (c_string_self (body e ++ 10 ∷ []) no_nul ∙ body-front)
      ∙ strip-append front (to_dec e.version_patch ++ 10 ∷ []) patch_nonempty
      ∙ ap (◌++◌ front) (strip-digits (to_dec e.version_patch) (to_dec-IsDigits e.version_patch))
      ∙ sym body_eq

  shown-body : is_skipped (body e) ≡ false
  unfolding body
  shown-body = go e.module_id st.shown
    where
      go : (s : Text) → is_skipped s ≡ false → is_skipped (s ++ (b'|' ∷ versions e)) ≡ false
      go [] h = cc
      go (c ∷ s) h = h

  descriptor-identity : descriptor_of id_max fields_of ≡ identity e
  unfolding descriptor_of fields_of
  descriptor-identity = rw (take_all (id_max - 1) e.module_id (omega (arith, st.fits)))

  entry_of-identity : entry_of id_max (identity e) ≡ e
  unfolding entry_of
  entry_of-identity = rw (take_all (id_max - 1) e.module_id (omega (arith, st.fits)))

  load_line-body :
      (inventory : Inventory)
      → load_line id_max (body e ++ 10 ∷ []) inventory
        ≡ if_recorded (record_descriptor id_max inventory (identity e))
  unfolding load_line load_fields
  load_line-body inventory = rw (strip-body, shown-body, scan_fields-body, descriptor-identity)

  -- A stored entry is read as a call that records it.
  pub load_line-next :
      (inventory : Inventory)
      → contains_entry inventory.entries (identity e) ≡ false
      → length inventory.entries < qualification_max
      → load_line id_max (body e ++ 10 ∷ []) inventory
        ≡ some (record { entries = inventory.entries ++ e ∷ [] })
  load_line-next inventory fresh room = load_line-body inventory ∙ ap if_recorded recorded
    where
      recorded :
          record_descriptor id_max inventory (identity e)
          ≡ (true, record { entries = inventory.entries ++ e ∷ [] })
      recorded =
          unfold record_descriptor contains in
          rw (is_empty-id, fresh, entry_of-identity) (ground arith)
