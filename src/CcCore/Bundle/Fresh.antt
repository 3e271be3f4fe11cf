-- ===== src/CcCore/Bundle/Fresh.antt =====
-- A loop that looks each id up among those before it finds the ids that stand twice.
use open_voip.Base.{
  String, ◌≡◌, refl, eq_iff, contains, IsDistinct, true, false, List, [], ◌∷◌, arith,
}

-- Each text is in none of those before it.
abbrev pub Fresh : List String → List String → Type 0
Fresh seen [] = Unit {0}
Fresh seen (x ∷ xs) = (contains x seen ≡ false) × Fresh (x ∷ seen) xs

unseen_before :
    (y : String) (seen xs : List String)
    → contains y seen ≡ true
    → Fresh seen xs
    → contains y xs ≡ false
unseen_before y seen [] h f = refl
unseen_before y seen (x ∷ xs) h f =
    let later = unseen_before y (x ∷ seen) xs (ground arith) f.1 in
    ground (arith, later, h, f.0, eq_iff x y)

pub Fresh-IsDistinct : (seen xs : List String) → Fresh seen xs → IsDistinct xs
Fresh-IsDistinct seen [] h = tt
Fresh-IsDistinct seen (x ∷ xs) h = (
  unseen_before x (x ∷ seen) xs (ground (arith, eq_iff x x)) h.1,
  Fresh-IsDistinct (x ∷ seen) xs h.1,
)
