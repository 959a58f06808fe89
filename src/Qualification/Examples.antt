-- ===== src/Qualification/Examples.antt =====
-- src/qualification.c and src/qualification_store.c on two versions of one module.
use digit.Base.{
  ◌≡◌, ◌⊎◌, refl, true, false, ◌&&◌, ◌||◌, none, some, [], ◌∷◌, ◌++◌, has_char, All, Text, text,
  arith,
}
use digit.Base.Decimal.{to_dec}
use digit.Abi.{Descriptor}
use digit.Qualification.{
  Inventory, init, contains, contains_entry, entry_of, matches, record_descriptor,
}
use digit.Qualification.Laws.{IsSound, contains-record_descriptor}
use digit.Qualification.Store.{Stream, save, load, print_entries, print_entry}
use digit.Qualification.Store.Sound.{load-IsSound}
use digit.Qualification.Store.Lines.{IsStorable}
use digit.Qualification.Store.RoundTrip.{load-save, save-total}

abbrev echo : Descriptor
echo = record {
  id = text "echo";
  version_major = 1;
  version_minor = 2;
  version_patch = 3;
  has_qualify = true;
  has_start = true;
  has_stop = false;
}

abbrev one_module : Inventory
one_module = record {
  entries =
      record { module_id = text "echo"; version_major = 1; version_minor = 2; version_patch = 3 }
      ∷ [];
}

one_module-IsSound : IsSound one_module
unfolding contains_entry
one_module-IsSound = record { bounded = omega arith; distinct = (refl, tt); named = (refl, tt) }

abbrev echo_two : Descriptor
echo_two = record echo { version_major = 2 }

contains-record_descriptor_example :
    contains (some (record_descriptor 64 one_module echo_two).1) (some echo_two) ≡ (
      contains (some one_module) (some echo_two)
      || ((record_descriptor 64 one_module echo_two).0 && matches (entry_of 64 echo_two) echo_two))
contains-record_descriptor_example =
    contains-record_descriptor 64 echo_two (omega arith) one_module echo_two

abbrev good_stream : Stream
good_stream = record { opens = true; prints = λ _. true; closes = true; torn = [] }

abbrev echo_line : Text
echo_line = text "echo|1|2|3" ++ 10 ∷ []

saves_one_module : save good_stream none one_module ≡ (true, some echo_line)
unfolding save print_entries print_entry to_dec
saves_one_module = refl

one_module-IsStorable : All (IsStorable 64) one_module.entries
unfolding has_char
one_module-IsStorable = (
  record {
    short = omega arith;
    fits = omega arith;
    shown = refl;
    no_bar = refl;
    no_line_end = refl;
    no_nul = refl;
    major = omega arith;
    minor = omega arith;
    patch = omega arith;
  },
  tt,
)

load-save_example :
    load 64 (some (record { content = echo_line; read_error = false })) ≡ (true, one_module)
load-save_example =
    load-save 64 good_stream none one_module echo_line one_module-IsSound one_module-IsStorable
      saves_one_module

save-total_example :
    (content : Text) × (save good_stream none one_module ≡ (true, some content))
    × (load 64 (some (record { content = content; read_error = false })) ≡ (true, one_module))
save-total_example =
    save-total 64 good_stream none one_module refl (λ i. refl) refl one_module-IsSound
      one_module-IsStorable

load-IsSound_example :
    IsSound (load 64 (some (record { content = echo_line; read_error = true }))).1
    × (((load 64 (some (record { content = echo_line; read_error = true }))).0 ≡ true)
        ⊎ ((load 64 (some (record { content = echo_line; read_error = true }))).1 ≡ init))
load-IsSound_example =
    load-IsSound 64 (some (record { content = echo_line; read_error = true })) (omega arith)
