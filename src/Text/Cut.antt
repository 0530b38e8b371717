-- ===== src/Text/Cut.antt =====
-- Texts that are put together around a byte that they do not have.
use gsql.Common.{ℕ, Bool, true, not, List, [], ◌∷◌, ◌++◌, all, All, eqb, ◌≡◌, refl, sym, ap₂, arith}
use gsql.Text.{Text, join}

-- No byte is the one given.
abbrev pub without : ℕ → Text → Bool
without sep s = all (λ c. not (eqb c sep)) s

pub cut_at :
    (sep : ℕ) (p q s t : Text)
    → without sep p ≡ true
    → without sep q ≡ true
    → p ++ sep ∷ s ≡ q ++ sep ∷ t
    → (p ≡ q) × (s ≡ t)
cut_at sep [] [] s t hp hq e = (refl, cc)
cut_at sep [] (y ∷ q) s t hp hq e = let head : y ≡ sep = cc in absurd (ground (arith, head))
cut_at sep (x ∷ p) [] s t hp hq e = let head : x ≡ sep = cc in absurd (ground (arith, head))
cut_at sep (x ∷ p) (y ∷ q) s t hp hq e =
    let head : x ≡ y = cc in
    let clean_p : without sep p ≡ true = ground arith in
    let clean_q : without sep q ≡ true = ground arith in
    let rest = cut_at sep p q s t clean_p clean_q cc in (ap₂ (λ a l. a ∷ l) head rest.0, rest.1)

no_cut : (sep : ℕ) (p q t : Text) → without sep p ≡ true → p ≡ q ++ sep ∷ t → ⊥
no_cut sep [] [] t h e = cc
no_cut sep [] (y ∷ q) t h e = cc
no_cut sep (x ∷ p) [] t h e = let head : x ≡ sep = cc in ground (arith, head)
no_cut sep (x ∷ p) (y ∷ q) t h e =
    let clean : without sep p ≡ true = ground arith in no_cut sep p q t clean cc

-- A text with some byte, and without the separator.
abbrev pub IsPiece : ℕ → Text → Type 0
IsPiece sep [] = ⊥
IsPiece sep (c ∷ s) = without sep (c ∷ s) ≡ true

piece_without : (sep : ℕ) (s : Text) → IsPiece sep s → without sep s ≡ true
piece_without sep [] h = absurd h
piece_without sep (c ∷ s) h = h

pub join-injective :
    (sep : ℕ) (ps qs : List Text)
    → All (IsPiece sep) ps
    → All (IsPiece sep) qs
    → join (sep ∷ []) ps ≡ join (sep ∷ []) qs
    → ps ≡ qs
unfolding join
join-injective sep [] [] hp hq e = refl
join-injective sep [] ([] ∷ qs) hp hq e = absurd (hq.0)
join-injective sep [] ((c ∷ q) ∷ []) hp hq e = cc
join-injective sep [] ((c ∷ q) ∷ r ∷ qs) hp hq e = cc
join-injective sep ([] ∷ ps) qs hp hq e = absurd (hp.0)
join-injective sep ((c ∷ p) ∷ []) [] hp hq e = cc
join-injective sep ((c ∷ p) ∷ r ∷ ps) [] hp hq e = cc
join-injective sep ((c ∷ p) ∷ []) (q ∷ []) hp hq e = cc
join-injective sep ((c ∷ p) ∷ []) (q ∷ r ∷ qs) hp hq e =
    absurd (no_cut sep (c ∷ p) q (join (sep ∷ []) (r ∷ qs)) hp.0 e)
join-injective sep ((c ∷ p) ∷ r ∷ ps) (q ∷ []) hp hq e =
    absurd (no_cut sep q (c ∷ p) (join (sep ∷ []) (r ∷ ps)) (piece_without sep q hq.0) (sym e))
join-injective sep ((c ∷ p) ∷ r ∷ ps) (q ∷ t ∷ qs) hp hq e =
    let cut =
      cut_at sep (c ∷ p) q (join (sep ∷ []) (r ∷ ps)) (join (sep ∷ []) (t ∷ qs)) hp.0
        (piece_without sep q hq.0) e in
    ap₂ (λ a l. a ∷ l) cut.0 (join-injective sep (r ∷ ps) (t ∷ qs) hp.1 hq.1 cut.1)
