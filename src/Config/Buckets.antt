-- ===== src/Config/Buckets.antt =====
-- config/histogram_buckets.go: the boundaries of the histogram buckets.
use krakend_otel.Prelude.{ℕ, List, [], ◌∷◌, ◌*◌}

-- In milliseconds.
abbrev pub time_buckets : List ℕ
time_buckets =
    10 ∷ 20 ∷ 50 ∷ 75 ∷ 100 ∷ 125 ∷ 150 ∷ 175 ∷ 200 ∷ 250 ∷ 300 ∷ 350 ∷ 500 ∷ 750 ∷ 1000 ∷ 1500
    ∷ 2000 ∷ 3500 ∷ 5000 ∷ 10000 ∷ []

-- In bytes.
abbrev pub size_buckets : List ℕ
size_buckets =
    128
    ∷ 256
    ∷ 512
    ∷ 1024
    ∷ 4 * 1024
    ∷ 8 * 1024
    ∷ 16 * 1024
    ∷ 32 * 1024
    ∷ 64 * 1024
    ∷ 4 * 64 * 1024
    ∷ 8 * 64 * 1024
    ∷ 16 * 64 * 1024
    ∷ 4 * 1024 * 1024
    ∷ 16 * 1024 * 1024
    ∷ 64 * 1024 * 1024
    ∷ []
