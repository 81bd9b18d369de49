-- ===== src/Config.antt =====
-- The kernel's configuration, core/src/config.rs.
use mos_rust.Prelude.{ℕ, ◌/◌}

abbrev pub systick_hz : ℕ
systick_hz = 1000

abbrev pub task_max : ℕ
task_max = 16

abbrev pub page_size : ℕ
page_size = 1024

abbrev pub page_size_words : ℕ
page_size_words = page_size / 4

abbrev pub time_slice_ticks : ℕ
time_slice_ticks = 50

abbrev pub pri_max : ℕ
pri_max = 0

abbrev pub pri_min : ℕ
pri_min = 127

-- Marks a priority that is not set.
abbrev pub pri_inv : ℕ
pri_inv = 255

abbrev pub shell_buf_size : ℕ
shell_buf_size = 32

abbrev pub user_name_size : ℕ
user_name_size = 8

abbrev pub async_pool_max : ℕ
async_pool_max = 16
