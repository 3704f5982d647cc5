-- ===== src/Prelude/Order.antt =====
-- The order of Go strings is total.
use mathlib.Core.Path.{◌≡◌, refl}
use mathlib.Core.Bool.{true, false}
use mathlib.Core.List.{[], ◌∷◌}
use native.Mathlib.Omega.{arith}
use cf_local.Prelude.Text.{Bytes, less}
use cf_local.Prelude.Sort.{IsOrder}

pub less_asym : (a b : Bytes) → less a b ≡ true → less b a ≡ false
unfolding less
less_asym [] [] h = cc
less_asym [] (y ∷ b) h = refl
less_asym (x ∷ a) [] h = cc
less_asym (x ∷ a) (y ∷ b) h = ground (arith, less_asym a b)

pub less_trans : (a b c : Bytes) → less b a ≡ false → less c b ≡ false → less c a ≡ false
unfolding less
less_trans [] [] [] h k = refl
less_trans [] [] (z ∷ c) h k = refl
less_trans [] (y ∷ b) [] h k = cc
less_trans [] (y ∷ b) (z ∷ c) h k = refl
less_trans (x ∷ a) [] [] h k = cc
less_trans (x ∷ a) [] (z ∷ c) h k = cc
less_trans (x ∷ a) (y ∷ b) [] h k = cc
less_trans (x ∷ a) (y ∷ b) (z ∷ c) h k = ground (arith, less_trans a b c)

pub less_antisym : (a b : Bytes) → less a b ≡ false → less b a ≡ false → a ≡ b
unfolding less
less_antisym [] [] h k = refl
less_antisym [] (y ∷ b) h k = cc
less_antisym (x ∷ a) [] h k = cc
less_antisym (x ∷ a) (y ∷ b) h k = ground (arith, less_antisym a b)

pub less-IsOrder : IsOrder less
less-IsOrder = record { asym = less_asym; trans = less_trans }
