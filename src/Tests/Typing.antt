-- ===== src/Tests/Typing.antt =====
-- The line editor and the clock at concrete inputs.
use mos_rust.Prelude.{◌≡◌, refl, [], ◌∷◌, ◌++◌, some, none, arith, ok, drop}
use mos_rust.Shell.{LineEditor, create, feed}
use mos_rust.Shell.Commands.{ls, kill, sys_cmd_map, runs, parse}
use mos_rust.Shell.Commands.Words.{lookup, exchange, parse-lookup}
use mos_rust.Shell.Lines.{IsValid, text, feed-text}

abbrev typed : LineEditor
typed = record { buf = create.buf; len = 3 }

typed-IsValid : IsValid typed
unfolding create
typed-IsValid = record { sized = refl; in_range = omega arith }

feed-text_example :
    (e1 : LineEditor) × (e2 : LineEditor) × (feed typed 0x41 ≡ ok (none, e1))
    × IsValid e1
    × (text e1 ≡ text typed ++ (0x41 ∷ []))
    × (feed e1 0x0A ≡ ok (some (text typed ++ (0x41 ∷ [])), e2))
    × IsValid e2
    × (text e2 ≡ [])
feed-text_example = feed-text typed 0x41 typed-IsValid (omega arith) refl (omega arith)

-- "  kill  ls " runs `kill` on "ls ", and "kills" runs nothing.
parse-lookup_example :
    parse (32 ∷ 32 ∷ 107 ∷ 105 ∷ 108 ∷ 108 ∷ 32 ∷ 32 ∷ 108 ∷ 115 ∷ 32 ∷ [])
    ≡ runs kill (108 ∷ 115 ∷ 32 ∷ [])
unfolding lookup
parse-lookup_example =
    parse-lookup
      ((0x6B ∷ 0x69 ∷ 0x6C ∷ 0x6C ∷ [], kill) ∷ (0x6C ∷ 0x73 ∷ [], ls) ∷ drop 2 sys_cmd_map)
      (32 ∷ 32 ∷ 107 ∷ 105 ∷ 108 ∷ 108 ∷ 32 ∷ 32 ∷ 108 ∷ 115 ∷ 32 ∷ [])
      (exchange (0x6C ∷ 0x73 ∷ [], ls) (0x6B ∷ 0x69 ∷ 0x6C ∷ 0x6C ∷ [], kill) (drop 2 sys_cmd_map))
