-- ===== src/Sidecar/Verify.antt =====
-- When an embedding response is trusted.
use whatsrust.Prelude.{ℕ, suc, ◌≡◌, ◌↔◌, none, List, [], ◌∷◌, length, arith, eq_iff}
use whatsrust.Prelude.Table.{All}
use whatsrust.Sidecar.{ModelInfo, EmbedWire, check_vectors, verify_embed_response}

check_vectors_iff :
    (dim i : ℕ) (vs : List (List ℕ))
    → (check_vectors dim i vs ≡ none) ↔ All (λ v. length v ≡ dim) vs
unfolding check_vectors
check_vectors_iff dim i [] = ground arith
check_vectors_iff dim i (v ∷ vs) = ground (arith, check_vectors_iff dim (suc i) vs)

-- A response is accepted exactly if it is of the expected model and dimension, has one vector for
-- each text, and every vector has that dimension.
pub verify_embed_response_iff :
    (expected : ModelInfo) (count : ℕ) (wire : EmbedWire)
    → (verify_embed_response expected count wire ≡ none) ↔ (
        (EmbedWire.wire_model_id wire ≡ ModelInfo.model_id expected)
        × (EmbedWire.wire_dim wire ≡ ModelInfo.dim expected)
        × (length (EmbedWire.vectors wire) ≡ count)
        × All (λ v. length v ≡ ModelInfo.dim expected) (EmbedWire.vectors wire))
unfolding verify_embed_response
verify_embed_response_iff expected count wire = ground (
  arith,
  eq_iff (EmbedWire.wire_model_id wire) (ModelInfo.model_id expected),
  check_vectors_iff (ModelInfo.dim expected) 0 (EmbedWire.vectors wire),
)
