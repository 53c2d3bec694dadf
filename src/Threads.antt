-- ===== src/Threads.antt =====
-- The default number of worker threads (crates/cipherfs-core/src/parallel.rs).
use cipher_fs.Base.{ℕ, ◌/◌, Option, none, some, min, max}

abbrev pub max_default_threads : ℕ
max_default_threads = 6

-- `(available / 2).clamp(1, MAX_DEFAULT_THREADS)`
unfoldable pub balanced_threads : ℕ → ℕ
balanced_threads available = min max_default_threads (max 1 (available / 2))

-- `available_parallelism`, when the system knows it.
unfoldable pub default_threads : Option ℕ → ℕ
unfolding balanced_threads
default_threads none = balanced_threads 1
default_threads (some available) = balanced_threads available
