-- ===== src/ZnodePath/Chroot.antt =====
-- The two translations are inverse on the paths that the client sends and the server returns.
use elephants.Base.{
  ℕ, suc, ◌≤◌, ◌≡◌, ◌≢◌, ◌⊎◌, refl, ap, true, false, Option, none, some, List, [], ◌∷◌, ◌++◌,
  append-nil, arith, ◌==◌, length, length-append, drop-append, inl, inr,
}
use elephants.ZnodePath.{slash, root, starts_with, prepend_string, sub_string}

starts_with-append : (s t : List ℕ) → starts_with (s ++ t) s ≡ true
unfolding starts_with
starts_with-append [] t = refl
starts_with-append (c ∷ s) t = ground (arith, starts_with-append s t)

sub_string-append : (chroot t : List ℕ) → t ≢ [] → sub_string (some chroot) (chroot ++ t) ≡ t
unfolding sub_string
sub_string-append chroot [] h = absurd (h refl)
sub_string-append chroot (c ∷ t) h = ground (
  arith,
  starts_with-append chroot (c ∷ t),
  length-append chroot (c ∷ t),
  drop-append (length chroot) chroot (c ∷ t) refl,
)

sub_string_self : (chroot : List ℕ) → sub_string (some chroot) chroot ≡ root
unfolding sub_string
sub_string_self chroot = ground (arith, rw append-nil at (starts_with-append chroot []))

-- What the application sends it gets back: for every path that begins with '/', whatever the
-- chroot, the client's path of the server's path of it is the path itself.
pub sub_string-prepend_string :
    (chroot : Option (List ℕ)) (p : List ℕ)
    → sub_string chroot (prepend_string chroot (slash ∷ p)) ≡ slash ∷ p
unfolding prepend_string
sub_string-prepend_string none p = unfold sub_string in refl
sub_string-prepend_string (some chroot) [] = sub_string_self chroot
sub_string-prepend_string (some chroot) (c ∷ p) =
    let longer : (suc (suc (length p)) == 1) ≡ false = ground arith in
    rw longer (sub_string-append chroot (slash ∷ c ∷ p) (λ e. cc))

-- The other way round: the server's path of what the client is shown is the path that the server
-- sent, for the chroot itself and for every path that continues it by at least two bytes.
pub prepend_string-sub_string :
    (chroot t : List ℕ)
    → (t ≡ []) ⊎ (2 ≤ length t)
    → prepend_string (some chroot) (sub_string (some chroot) (chroot ++ t)) ≡ chroot ++ t
unfolding prepend_string
prepend_string-sub_string chroot t (inl e) = rw (e, append-nil, sub_string_self chroot)
prepend_string-sub_string chroot t (inr h) =
    let longer : (length t == 1) ≡ false = ground arith in
    rw (sub_string-append chroot t (λ e. omega (arith, ap (length {A = ℕ}) e)), longer)
