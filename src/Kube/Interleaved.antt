-- ===== src/Kube/Interleaved.antt =====
-- A client of which others share the server: before each of its calls, the next one of their moves is
-- made, if there is one.
use operator_for_ai_chips_on.Common.{List, [], ◌∷◌}
use operator_for_ai_chips_on.Kube.Defs.{Util, Client}

module _ {U : Util} (C : Client U) {M : Type 0} (act : M → C.World → C.World) where
  -- The world and the moves that are left, after the next move.
  abbrev pub moved : C.World × List M → C.World × List M
  moved (w, []) = (w, [])
  moved (w, m ∷ ms) = (act m w, ms)

  abbrev pub interleaved : Client U
  interleaved = record {
    World = C.World × List M;
    get = λ k n s. let (w, ms) = moved s in let (r, w') = C.get k n w in (r, (w', ms));
    delete = λ k o s. let (w, ms) = moved s in let (e, w') = C.delete k o w in (e, (w', ms));
    patch = λ d base s.
        let (w, ms) = moved s in let (e, d', w') = C.patch d base w in (e, d', (w', ms));
    create_or_patch = λ k o f s.
        let (w, ms) = moved s in let (r, o', w') = C.create_or_patch k o f w in (r, o', (w', ms));
  }
