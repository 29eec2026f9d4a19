-- ===== src/Bus/Build/Consume.antt =====
-- What a consumer of builds does with a build that fails.
use lecrev.Prelude.{◌≡◌, refl, List, ◌∷◌, some}
use lecrev.Errors.{Error, Exec, err}
use lecrev.Build.{BuildAssignment}
use lecrev.Bus.Build.{consume_build}

-- The first build that fails ends the consumer with its error: the builds behind it stay in the
-- channel, and no handler sees them.
consume-stops :
    {S : Type 0} (handler : BuildAssignment → Exec S (Unit {0})) (a : BuildAssignment)
    (rest : List BuildAssignment) (s : S) (e : Error)
    → (handler a s).0 ≡ err e
    → consume_build handler (a ∷ rest) s ≡ ((some e, rest), (handler a s).1)
unfolding consume_build
consume-stops handler a rest s e h = rw h refl
