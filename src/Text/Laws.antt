-- ===== src/Text/Laws.antt =====
-- Equality, prefixes and suffixes.
use docling_serve_ray.Prelude.{
  ◌-◌, ◌≡◌, refl, sym, ap, ◌∙◌, ◌↔◌, true, [], ◌∷◌, ◌++◌, arith, length, take, drop, length-append,
  take-append_self, drop-append_self, take-append-drop,
}
use docling_serve_ray.Text.{Text, str_eq, starts_with, ends_with, drop_last}

pub str_eq_iff : (s t : Text) → (str_eq s t ≡ true) ↔ (s ≡ t)
unfolding str_eq
str_eq_iff [] [] = (λ _. refl, λ _. refl)
str_eq_iff [] (c ∷ t) = (λ h. cc, λ h. cc)
str_eq_iff (c ∷ s) [] = (λ h. cc, λ h. cc)
str_eq_iff (c ∷ s) (d ∷ t) = ground (arith, str_eq_iff s t)

pub str_eq_refl : (s : Text) → str_eq s s ≡ true
str_eq_refl s = (str_eq_iff s s).1 refl

pub starts_with-append : (p s : Text) → starts_with (p ++ s) p ≡ true
unfolding starts_with
starts_with-append p s = (str_eq_iff _ _).1 (take-append_self p s)

pub starts_with_split : (s p : Text) → starts_with s p ≡ true → p ++ drop (length p) s ≡ s
unfolding starts_with
starts_with_split s p h =
    ap (λ q. q ++ drop (length p) s) (sym ((str_eq_iff _ _).0 h)) ∙ take-append-drop (length p) s

length-append_sub : (s e : Text) → length (s ++ e) - length e ≡ length s
length-append_sub s e = omega (arith, length-append s e)

pub ends_with-append : (s e : Text) → ends_with (s ++ e) e ≡ true
unfolding ends_with
ends_with-append s e = rw length-append_sub ((str_eq_iff _ e).1 (drop-append_self s e))

pub drop_last-append : (s e : Text) → drop_last (length e) (s ++ e) ≡ s
unfolding drop_last
drop_last-append s e = rw length-append_sub (take-append_self s e)

pub ends_with_split : (s e : Text) → ends_with s e ≡ true → drop_last (length e) s ++ e ≡ s
unfolding ends_with drop_last
ends_with_split s e h =
    ap (λ q. take (length s - length e) s ++ q) (sym ((str_eq_iff _ _).0 h))
    ∙ take-append-drop (length s - length e) s
