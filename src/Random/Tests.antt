-- ===== src/Random/Tests.antt =====
-- Runs of the generator, and its theorems at a concrete seed.
use libvci.Random.{Four, Random}

abbrev words : Four
words = record { x0 = 1; x1 = 2; x2 = 3; x3 = 4 }

abbrev rand : Random
rand = record { x = words; seed = words }
