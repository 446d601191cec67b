-- ===== src/MassClient/Target.antt =====
-- What a dial target looks like.
use mass_worker_llama_cpp.Prelude.{
  ℕ, Bool, true, false, ◌&&◌, ◌||◌, not, [], ◌∷◌, ◌++◌, Option, none, some, Bytes, text, ◌==◌,
  if◌then◌else◌, ◌≡◌, refl, ap, subst, inl, inr, arith, Bool-cases,
}
use mass_worker_llama_cpp.MassClient.{
  drop_prefix, is_cut, before_cut, after_at, host_of, last_at, without_user, plain_url, any_url,
  parse_url,
}

-- No path, no query, no fragment and no user.
abbrev pub is_plain : Bytes → Bool
is_plain [] = true
is_plain (c ∷ s) = not (is_cut c || c == b'@') && is_plain s

abbrev pub has_no_cut : Bytes → Bool
has_no_cut [] = true
has_no_cut (c ∷ s) = not (is_cut c) && has_no_cut s

abbrev pub has_no_at : Bytes → Bool
has_no_at [] = true
has_no_at (c ∷ s) = not (c == b'@') && has_no_at s

is_plain-of : (s : Bytes) → has_no_cut s ≡ true → has_no_at s ≡ true → is_plain s ≡ true
is_plain-of [] h k = refl
is_plain-of (c ∷ s) h k = ground (arith, is_plain-of s)

has_no_cut-before_cut : (s : Bytes) → has_no_cut (before_cut s) ≡ true
unfolding before_cut
has_no_cut-before_cut [] = refl
has_no_cut-before_cut (c ∷ s) = elim (Bool-cases (is_cut c)) [
  | inl e ↦ rw e refl
  | inr e ↦ rw e (rw e (has_no_cut-before_cut s))
]

none_step :
    (c : ℕ) (s : Bytes) (o : Option Bytes)
    → (o ≡ none → has_no_at s ≡ true)
    → last_at c s o ≡ none
    → has_no_at (c ∷ s) ≡ true
unfolding last_at
none_step c s none f h = ground (arith, f refl)
none_step c s (some r) f h = cc

after_at-none : (s : Bytes) → after_at s ≡ none → has_no_at s ≡ true
unfolding after_at
after_at-none [] h = refl
after_at-none (c ∷ s) h = none_step c s (after_at s) (after_at-none s) h

some_step :
    (c : ℕ) (s r : Bytes) (o : Option Bytes)
    → (o ≡ none → has_no_at s ≡ true)
    → (o ≡ some r → is_plain r ≡ true)
    → has_no_cut s ≡ true
    → last_at c s o ≡ some r
    → is_plain r ≡ true
unfolding last_at
some_step c s r (some x) f g k h = g h
some_step c s r none f g k h = elim (Bool-cases (c == b'@')) [
  | inl e ↦
      let p : s ≡ r = ground arith in subst (λ x. is_plain x ≡ true) p (is_plain-of s k (f refl))
  | inr e ↦ ground arith
]

after_at-some : (s r : Bytes) → has_no_cut s ≡ true → after_at s ≡ some r → is_plain r ≡ true
unfolding after_at
after_at-some [] r k h = cc
after_at-some (c ∷ s) r k h =
    some_step c s r (after_at s) (after_at-none s) (after_at-some s r (ground arith)) (ground arith)
      h

without_user_plain :
    (s : Bytes) (o : Option Bytes)
    → has_no_cut s ≡ true
    → after_at s ≡ o
    → is_plain (without_user s o) ≡ true
unfolding without_user
without_user_plain s (some host) k e = after_at-some s host k e
without_user_plain s none k e = is_plain-of s k (after_at-none s e)

host_of_plain : (s : Bytes) → is_plain (host_of s) ≡ true
unfolding host_of
host_of_plain s = without_user_plain (before_cut s) _ (has_no_cut-before_cut s) refl

any_url_plain : (url : Bytes) (o : Option Bytes) → is_plain (any_url url o).target ≡ true
unfolding any_url plain_url
any_url_plain url (some rest) = host_of_plain rest
any_url_plain url none = step (drop_prefix (text "http://") url)
  where
    step : (o : Option Bytes) → is_plain (plain_url url o).target ≡ true
    step (some rest) = host_of_plain rest
    step none = host_of_plain url

-- Whatever the URL, the dial target has no path, query, fragment or user in it.
pub parse_url_plain : (url : Bytes) → is_plain (parse_url url).target ≡ true
unfolding parse_url
parse_url_plain url = any_url_plain url (drop_prefix (text "https://") url)

before_cut_plain : (s : Bytes) → is_plain s ≡ true → before_cut s ≡ s
unfolding before_cut
before_cut_plain [] h = refl
before_cut_plain (c ∷ s) h =
    let e : is_cut c ≡ false = ground arith in rw e (ap (◌∷◌ c) (before_cut_plain s (ground arith)))

after_at_plain : (s : Bytes) → is_plain s ≡ true → after_at s ≡ none
unfolding after_at last_at
after_at_plain [] h = refl
after_at_plain (c ∷ s) h =
    let e : (c == b'@') ≡ false = ground arith in rw (after_at_plain s (ground arith)) (rw e refl)

host_of_eq : (s : Bytes) → is_plain s ≡ true → host_of s ≡ s
unfolding host_of without_user
host_of_eq s h = rw (before_cut_plain s h) (rw (after_at_plain s h) refl)

drop_prefix-append : (p s : Bytes) → drop_prefix p (p ++ s) ≡ some s
unfolding drop_prefix
drop_prefix-append [] s = refl
drop_prefix-append (c ∷ p) s = ground (arith, drop_prefix-append p s)

not_tls : (host : Bytes) → drop_prefix (text "https://") (text "http://" ++ host) ≡ none
unfolding drop_prefix text
not_tls host = refl

-- The URL that is put together from a scheme and a plain target parses back to both.
pub parse_url_round_trip :
    (host : Bytes) (use_tls : Bool)
    → is_plain host ≡ true
    → parse_url ((if use_tls then text "https://" else text "http://") ++ host)
      ≡ record { target = host; use_tls = use_tls }
unfolding parse_url any_url plain_url
parse_url_round_trip host true h =
    rw (drop_prefix-append (text "https://") host) (rw (host_of_eq host h) refl)
parse_url_round_trip host false h =
    rw (not_tls host) (rw (drop_prefix-append (text "http://") host) (rw (host_of_eq host h) refl))
