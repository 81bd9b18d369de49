-- ===== src/Shell/Commands/Words.antt =====
-- Which command a line runs, against a description by the line's first word.
use mos_rust.Prelude.{
  ℕ, ◌≡◌, refl, ap, ◌∙◌, List, [], ◌∷◌, Bool, true, false, none, some, ◌&&◌, ◌==◌, if◌then◌else◌,
  length, drop, arith, Bool-cases, inl, inr, not, sym,
}
use mos_rust.Shell.Commands.{
  trim_start, is_blank, starts_with, ends_word, try_match, Command, sys_cmd_map, Parsed, blank,
  unknown, runs, match_first, parse,
}

-- A word ends at the first ' '.
abbrev pub word : List ℕ → List ℕ
word [] = []
word (b ∷ bs) = if b == 32 then [] else b ∷ word bs

abbrev pub after_word : List ℕ → List ℕ
after_word [] = []
after_word (b ∷ bs) = if b == 32 then b ∷ bs else after_word bs

abbrev pub same : List ℕ → List ℕ → Bool
same [] [] = true
same (x ∷ xs) (y ∷ ys) = x == y && same xs ys
same _ _ = false

-- A text without ' '.
abbrev pub is_word : List ℕ → Bool
is_word [] = true
is_word (b ∷ bs) = not (b == 32) && is_word bs

-- The command whose text the first word is, with what follows the word.
unfoldable pub lookup : List (List ℕ × Command) → List ℕ → List ℕ → Parsed
lookup [] name argv = unknown
lookup ((text, command) ∷ cmds) name argv =
    if same name text then runs command argv else lookup cmds name argv

abbrev pub Texts : List (List ℕ × Command) → Type 0
Texts [] = Unit
Texts ((text, command) ∷ cmds) = (is_word text ≡ true) × Texts cmds

match_word :
    (text input : List ℕ)
    → is_word text ≡ true
    → (starts_with input text && ends_word (drop (length text) input)) ≡ same (word input) text
match_word [] [] h = refl
match_word [] (b ∷ bs) h = ground arith
match_word (t ∷ ts) [] h = refl
match_word (t ∷ ts) (b ∷ bs) h = ground (arith, match_word ts bs)

rest_word :
    (text input : List ℕ)
    → is_word text ≡ true
    → same (word input) text ≡ true
    → drop (length text) input ≡ after_word input
rest_word [] [] h e = refl
rest_word [] (b ∷ bs) h e = ground arith
rest_word (t ∷ ts) [] h e = cc
rest_word (t ∷ ts) (b ∷ bs) h e = ground (arith, rest_word ts bs)

try_match-word :
    (text line : List ℕ)
    → is_word text ≡ true
    → try_match text line ≡ (
        if same (word (trim_start line)) text
        then some (trim_start (after_word (trim_start line)))
        else none)
unfolding try_match
try_match-word text line h =
    let input = trim_start line in
    let m = match_word text input h in
    elim (Bool-cases (same (word input) text)) [
      | inl e ↦ rw (m, e, rest_word text input h e) refl
      | inr e ↦ rw (m, e) refl
    ]

match_first-lookup :
    (cmds : List (List ℕ × Command)) (line : List ℕ)
    → Texts cmds
    → match_first cmds line
      ≡ lookup cmds (word (trim_start line)) (trim_start (after_word (trim_start line)))
unfolding match_first lookup
match_first-lookup [] line h = refl
match_first-lookup ((text, command) ∷ cmds) line (h, hs) =
    let e = try_match-word text line h in
    let rest = match_first-lookup cmds line hs in
    ap (λ o. elim o [ none ↦ match_first cmds line | some argv ↦ runs command argv ]) e
    ∙ (elim (Bool-cases (same (word (trim_start line)) text)) [
      | inl f ↦ rw f refl
      | inr f ↦ rw f rest
    ])

-- `a` and `b` are the same text if both are the text of `name`.
same-join : (name a b : List ℕ) → same name a ≡ true → same name b ≡ true → same a b ≡ true
same-join [] [] [] h g = refl
same-join [] [] (y ∷ b) h g = cc
same-join [] (x ∷ a) b h g = cc
same-join (n ∷ name) [] b h g = cc
same-join (n ∷ name) (x ∷ a) [] h g = cc
same-join (n ∷ name) (x ∷ a) (y ∷ b) h g = ground (arith, same-join name a b)

same_comm : (a b : List ℕ) → same a b ≡ same b a
same_comm [] [] = refl
same_comm [] (y ∷ b) = refl
same_comm (x ∷ a) [] = refl
same_comm (x ∷ a) (y ∷ b) = ground (arith, same_comm a b)

abbrev pub Table : Type 0
Table = List (List ℕ × Command)

abbrev is_absent : List ℕ → Table → Bool
is_absent name [] = true
is_absent name ((text, command) ∷ cmds) = not (same name text) && is_absent name cmds

-- No name is in the table twice.
abbrev Distinct : Table → Type 0
Distinct [] = Unit
Distinct ((text, command) ∷ cmds) = (is_absent text cmds ≡ true) × Distinct cmds

-- The same entries in any order.
pub data Reordered : Table → Table → Type 0 where
  empty : Reordered [] []
  keep : (x : List ℕ × Command) {l1 l2 : Table} → Reordered l1 l2 → Reordered (x ∷ l1) (x ∷ l2)
  exchange : (x y : List ℕ × Command) (l : Table) → Reordered (x ∷ y ∷ l) (y ∷ x ∷ l)
  then_ : {l1 l2 l3 : Table} → Reordered l1 l2 → Reordered l2 l3 → Reordered l1 l3

is_absent-Reordered :
    {l1 l2 : Table} (name : List ℕ) → Reordered l1 l2 → is_absent name l1 ≡ is_absent name l2
is_absent-Reordered name empty = refl
is_absent-Reordered name (keep x r) =
    ap (λ b. not (same name x.0) && b) (is_absent-Reordered name r)
is_absent-Reordered name (exchange x y l) = ground arith
is_absent-Reordered name (then_ r s) = is_absent-Reordered name r ∙ is_absent-Reordered name s

Distinct-Reordered : {l1 l2 : Table} → Reordered l1 l2 → Distinct l1 → Distinct l2
Distinct-Reordered empty d = d
Distinct-Reordered (keep x r) d = (sym (is_absent-Reordered x.0 r) ∙ d.0, Distinct-Reordered r d.1)
Distinct-Reordered (exchange x y l) d =
    (ground (arith, d, same_comm x.0 y.0), (ground (arith, d), d.1.1))
Distinct-Reordered (then_ r s) d = Distinct-Reordered s (Distinct-Reordered r d)

lookup-Reordered :
    {l1 l2 : Table} (name argv : List ℕ)
    → Reordered l1 l2
    → Distinct l1
    → lookup l1 name argv ≡ lookup l2 name argv
unfolding lookup
lookup-Reordered name argv empty d = refl
lookup-Reordered name argv (keep x r) d =
    ap (λ o. if same name x.0 then runs x.1 argv else o) (lookup-Reordered name argv r d.1)
lookup-Reordered name argv (exchange x y l) d = ground (arith, d, same-join name x.0 y.0)
lookup-Reordered name argv (then_ r s) d =
    lookup-Reordered name argv r d ∙ lookup-Reordered name argv s (Distinct-Reordered r d)

-- A line of spaces runs nothing; any other runs the command whose name its first word is, with what
-- follows as its arguments, and is unknown if no command has that name. Neither the order of the
-- entries of the table (`cmds` is any order of them) nor common beginnings of names matter.
pub parse-lookup :
    (cmds : List (List ℕ × Command)) (line : List ℕ)
    → Reordered sys_cmd_map cmds
    → parse line ≡ (
        if is_blank line
        then blank
        else lookup cmds (word (trim_start line)) (trim_start (after_word (trim_start line))))
unfolding parse
parse-lookup cmds line p =
    let name = word (trim_start line) in
    let argv = trim_start (after_word (trim_start line)) in
    let words : Texts sys_cmd_map =
      (refl, (refl, (refl, (refl, (refl, (refl, (refl, (refl, tt)))))))) in
    let names : Distinct sys_cmd_map =
      (refl, (refl, (refl, (refl, (refl, (refl, (refl, (refl, tt)))))))) in
    ap (λ r. if is_blank line then blank else r)
      (match_first-lookup sys_cmd_map line words ∙ lookup-Reordered name argv p names)
