-- ===== src/Replay/Index.antt =====
-- What the search for the last packet that passes a test finds.
use silk_studio.Prelude.{
  ℕ, zero, suc, ◌+◌, ◌≡◌, refl, Bool, true, false, List, [], ◌∷◌, Option, none, some, arith,
  if◌then◌else◌, drop, get_elem?, All,
}
use silk_studio.Media.Packet.{EncodedPacket}
use silk_studio.Replay.Buffer.{last_index_from, last_index}

module _ (test : EncodedPacket → Bool) where
  -- The last index, found from the end.
  last_of : List EncodedPacket → Option ℕ
  last_of [] = none
  last_of (p ∷ ps) = elim (last_of ps) [
    | some i ↦ some (suc i)
    | none ↦ if test p then some 0 else none
  ]

  abbrev else_found : ℕ → Option ℕ → Option ℕ → Option ℕ
  else_found k found none = found
  else_found k found (some i) = some (i + k)

  last_index_from-eq :
      (k : ℕ) (found : Option ℕ) (ps : List EncodedPacket)
      → last_index_from test k found ps ≡ else_found k found (last_of ps)
  unfolding last_index_from last_of
  last_index_from-eq k found [] = refl
  last_index_from-eq k found (p ∷ ps) =
      ground (arith, last_index_from-eq (suc k) (if test p then some k else found) ps)

  last_index-eq-last_of : (ps : List EncodedPacket) → last_index test ps ≡ last_of ps
  unfolding last_index
  last_index-eq-last_of ps = ground (arith, last_index_from-eq 0 none ps)

  -- The packet at an index is the last that passes the test, and heads what is left from there.
  pub record IsLast (ps : List EncodedPacket) (i : ℕ) : Type 0 where
    pub packet : EncodedPacket
    pub at_index : get_elem? ps i ≡ some packet
    pub at_head : drop i ps ≡ packet ∷ drop (suc i) ps
    pub passes : test packet ≡ true
    pub rest_fails : All (λ p. test p ≡ false) (drop (suc i) ps)

  last_of-none : (ps : List EncodedPacket) → last_of ps ≡ none → All (λ p. test p ≡ false) ps
  unfolding last_of
  last_of-none [] h = tt
  last_of-none (p ∷ ps) h = ground (arith, last_of-none ps)

  last_of-IsLast : (ps : List EncodedPacket) (i : ℕ) → last_of ps ≡ some i → IsLast ps i
  unfolding last_of
  last_of-IsLast [] i h = cc
  last_of-IsLast (p ∷ ps) zero h = record {
    packet = p;
    at_index = refl;
    at_head = refl;
    passes = ground arith;
    rest_fails = last_of-none ps (ground arith);
  }
  last_of-IsLast (p ∷ ps) (suc i) h =
      let rest = last_of-IsLast ps i (ground arith) in
      record {
        packet = rest.packet;
        at_index = rest.at_index;
        at_head = rest.at_head;
        passes = rest.passes;
        rest_fails = rest.rest_fails;
      }

  pub last_index-none :
      (ps : List EncodedPacket) → last_index test ps ≡ none → All (λ p. test p ≡ false) ps
  last_index-none ps h = last_of-none ps (cc (last_index-eq-last_of ps))

  pub last_index-IsLast :
      (ps : List EncodedPacket) (i : ℕ) → last_index test ps ≡ some i → IsLast ps i
  last_index-IsLast ps i h = last_of-IsLast ps i (cc (last_index-eq-last_of ps))
