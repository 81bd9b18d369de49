-- ===== src/Shell/Commands.antt =====
-- The commands of the shell, boards/esp32c6/src/shell.rs. A line is the list of its bytes, which
-- are ASCII. `str` makes a string of bytes, and what is printed is left out.
pub mod Words
use Prim.Native.String.{String}
use mos_rust.Config.{page_size_words, user_name_size}
use mos_rust.Prelude.{
  ℕ, zero, suc, ◌+◌, ◌-◌, ◌*◌, ◌/◌, ◌≤◌, ◌<◌, ◌≡◌, List, [], ◌∷◌, ◌++◌, Bool, true, false, Option,
  none, some, ◌&&◌, ◌||◌, ltb, leb, ◌^◌, ◌==◌, if◌then◌else◌, length, drop, take, replicate, min,
  Run, ok,
}
use mos_rust.TaskList.{HeaplessVec}
use mos_rust.Kernel.{Tcb, Kernel}
use mos_rust.Kernel.Task.{find_tid, terminate, block, resume}

-- `char::is_whitespace` on ASCII
abbrev pub is_space : ℕ → Bool
is_space b = b == 32 || (leb 9 b && leb b 13)

abbrev pub trim_start : List ℕ → List ℕ
trim_start [] = []
trim_start (b ∷ bs) = if is_space b then trim_start bs else b ∷ bs

abbrev pub is_blank : List ℕ → Bool
is_blank [] = true
is_blank (b ∷ bs) = is_space b && is_blank bs

-- `trim_end` keeps what a byte that is no space follows.
abbrev pub trim_end : List ℕ → List ℕ
trim_end [] = []
trim_end (b ∷ bs) = if is_space b && is_blank bs then [] else b ∷ trim_end bs

abbrev pub trim : List ℕ → List ℕ
trim bs = trim_end (trim_start bs)

abbrev pub starts_with : List ℕ → List ℕ → Bool
starts_with bs [] = true
starts_with [] (t ∷ ts) = false
starts_with (b ∷ bs) (t ∷ ts) = b == t && starts_with bs ts

-- `rest.is_empty() || rest.starts_with(' ')`
abbrev pub ends_word : List ℕ → Bool
ends_word [] = true
ends_word (b ∷ bs) = b == 32

-- `Cmd::try_match`, for the text of a command
pub try_match : List ℕ → List ℕ → Option (List ℕ)
try_match text line =
    let input = trim_start line in
    let rest = drop (length text) input in
    if starts_with input text && ends_word rest then some (trim_start rest) else none

pub data Command : Type 0 where
  ls kill block_task resume_task help time uname reboot : Command

-- SYS_CMD_MAP
abbrev pub sys_cmd_map : List (List ℕ × Command)
sys_cmd_map =
    (0x6C ∷ 0x73 ∷ [], ls)
    ∷ (0x6B ∷ 0x69 ∷ 0x6C ∷ 0x6C ∷ [], kill)
    ∷ (0x62 ∷ 0x6C ∷ 0x6F ∷ 0x63 ∷ 0x6B ∷ [], block_task)
    ∷ (0x72 ∷ 0x65 ∷ 0x73 ∷ 0x75 ∷ 0x6D ∷ 0x65 ∷ [], resume_task)
    ∷ (0x68 ∷ 0x65 ∷ 0x6C ∷ 0x70 ∷ [], help)
    ∷ (0x74 ∷ 0x69 ∷ 0x6D ∷ 0x65 ∷ [], time)
    ∷ (0x75 ∷ 0x6E ∷ 0x61 ∷ 0x6D ∷ 0x65 ∷ [], uname)
    ∷ (0x72 ∷ 0x65 ∷ 0x62 ∷ 0x6F ∷ 0x6F ∷ 0x74 ∷ [], reboot)
    ∷ []

pub data Parsed : Type 0 where
  blank unknown : Parsed
  runs : Command → List ℕ → Parsed

-- The `for` of `parse_and_run`, over the commands left.
pub match_first : List (List ℕ × Command) → List ℕ → Parsed
match_first [] line = unknown
match_first ((text, command) ∷ cmds) line = elim (try_match text line) [
  | none ↦ match_first cmds line
  | some argv ↦ runs command argv
]

-- `parse_and_run`, up to the call of the command.
pub parse : List ℕ → Parsed
unfolding match_first
parse line = if is_blank line then blank else match_first sys_cmd_map line

-- `ls_cmd`: the share of its stack that a task uses, in per cent.
pub stack_percent : Tcb → ℕ
stack_percent tcb =
    let stack_top = min (tcb.stack_bottom + page_size_words * 4) (2 ^ 32 - 1) in
    let used_words = (stack_top - tcb.sp) / 4 in min (used_words * 100 / page_size_words) 100

-- `uname_cmd`: the stored name of `user_name_size` bytes.
pub rename : List ℕ → List ℕ → List ℕ
rename user_name argv =
    let new_name = trim argv in
    let copy_len = min (length new_name) (user_name_size - 1) in
    if length new_name == 0
    then user_name
    else take copy_len new_name ++ replicate (user_name_size - copy_len) 0

-- What the arguments of a task's command name.
pub data Target : Type 0 where
  bad_argv not_found : Target
  task : ℕ → Target

module _ (str : List ℕ → String) where
  pub task_ctrl_cmd : Kernel → List ℕ → Target
  task_ctrl_cmd k argv =
      let name = trim argv in
      if length name == 0
      then bad_argv
      else elim (find_tid k (str name)) [ none ↦ not_found | some tid ↦ task tid ]

  module _ ⦃vec : HeaplessVec⦄ where
    pub kill_cmd : Kernel → List ℕ → Run Kernel
    kill_cmd k argv = elim (task_ctrl_cmd k argv) [
      | bad_argv ↦ ok k
      | not_found ↦ ok k
      | task tid ↦ terminate k tid
    ]

    pub block_cmd : Kernel → List ℕ → Run Kernel
    block_cmd k argv = elim (task_ctrl_cmd k argv) [
      | bad_argv ↦ ok k
      | not_found ↦ ok k
      | task tid ↦ block k tid
    ]

    pub resume_cmd : Kernel → List ℕ → Run Kernel
    resume_cmd k argv = elim (task_ctrl_cmd k argv) [
      | bad_argv ↦ ok k
      | not_found ↦ ok k
      | task tid ↦ resume k tid
    ]
