-- ===== src/Server/Chunks.antt =====
-- How an answer is cut into chunks.
use scbl.Prelude.{
  ℕ, zero, suc, ◌≤◌, ◌≡◌, refl, List, [], ◌∷◌, ◌++◌, length, take, drop, take-append-drop,
  length-take, length-drop, All, ap, ◌∙◌, arith,
}
use scbl.Fragment.{max_payload_size}
use scbl.Server.{chunks}

unfoldable pub concat : List (List ℕ) → List ℕ
concat [] = []
concat (part ∷ parts) = part ++ concat parts

-- The chunks of an answer joined are the answer, and each has at most 1000 bytes.
pub concat-chunks :
    (fuel : ℕ) (payload : List ℕ)
    → length payload ≤ fuel
    → (concat (chunks fuel payload) ≡ payload)
      × All (λ part. length part ≤ max_payload_size) (chunks fuel payload)
unfolding concat chunks
concat-chunks zero [] h = (refl, tt)
concat-chunks zero (b ∷ payload) h = absurd (omega arith)
concat-chunks (suc fuel) [] h = (refl, tt)
concat-chunks (suc fuel) (b ∷ payload) h =
    let left = drop max_payload_size (b ∷ payload) in
    let rest =
      concat-chunks fuel left (omega (arith, h, length-drop max_payload_size (b ∷ payload))) in
    (
      ap (λ (q : List ℕ). take max_payload_size (b ∷ payload) ++ q) rest.0
          ∙ take-append-drop max_payload_size (b ∷ payload),
      (omega (arith, length-take max_payload_size (b ∷ payload)), rest.1),
    )
