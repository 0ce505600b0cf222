-- ===== src/RateLimit/Examples.antt =====
-- Three calls of one key and one of another, with two let through for each key in ten seconds.
use payment_recovery_engine.Prelude.{List, [], ◌∷◌, arith}
use payment_recovery_engine.RateLimit.Bound.{Call, serve, IsLimited, serve-IsLimited}

abbrev calls : List Call
calls =
    record { key = "page:a"; limit = 2; now = 1 }
    ∷ record { key = "page:a"; limit = 2; now = 2 }
    ∷ record { key = "page:b"; limit = 2; now = 3 }
    ∷ record { key = "page:a"; limit = 2; now = 4 }
    ∷ []

serve-IsLimited_example : IsLimited 10 (serve 10 calls [] []).1
serve-IsLimited_example =
    serve-IsLimited 10 calls (omega arith, (omega arith, (omega arith, (omega arith, tt))))
