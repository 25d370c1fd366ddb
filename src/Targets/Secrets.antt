-- ===== src/Targets/Secrets.antt =====
-- The keys of stored passwords: `secretKey` of src/targetManager/targetConfig.ts.
use vscode_cann_debugger.Base.{
  ℕ, [], ◌∷◌, ◌++◌, Text, All, decimal, number_from, number_from-decimal, decimal-IsDigits,
  IsDigits, is_digit, arith, true, ◌≡◌, ◌≢◌, refl, sym, ap, subst, ◌∙◌,
}
use vscode_cann_debugger.Targets.{CredentialIdentity, value_or, key_prefix, secret_key}

abbrev pub Lacks : ℕ → Text → Type 0
Lacks c = All (λ d. d ≢ c)

append-cancel : (xs a b : Text) → xs ++ a ≡ xs ++ b → a ≡ b
append-cancel [] a b h = h
append-cancel (x ∷ xs) a b h = append-cancel xs a b cc

Lacks-none : (c : ℕ) (x y : Text) → ¬ Lacks c (x ++ c ∷ y)
Lacks-none c [] y h = h.0 refl
Lacks-none c (d ∷ x) y h = Lacks-none c x y h.1

Lacks-moved : (c : ℕ) (a b : Text) → a ≡ b → Lacks c a → Lacks c b
Lacks-moved c a b e = subst (Lacks c) e

-- What stands in front of the first `c`.
first-split :
    (c : ℕ) (x y a b : Text) → Lacks c x → Lacks c y → x ++ c ∷ a ≡ y ++ c ∷ b → (x ≡ y) × (a ≡ b)
first-split c [] [] a b h k e = (refl, append-cancel (c ∷ []) a b e)
first-split c [] (d ∷ y) a b h k e = absurd (k.0 cc)
first-split c (d ∷ x) [] a b h k e = absurd (h.0 cc)
first-split c (d ∷ x) (f ∷ y) a b h k e =
    let behind = first-split c x y a b h.1 k.1 cc in (cc (behind.0), behind.1)

-- What stands behind the last `c`.
last-split :
    (c : ℕ) (x y a b : Text) → Lacks c a → Lacks c b → x ++ c ∷ a ≡ y ++ c ∷ b → (x ≡ y) × (a ≡ b)
last-split c [] [] a b h k e = (refl, append-cancel (c ∷ []) a b e)
last-split c [] (d ∷ y) a b h k e =
    absurd (Lacks-none c y b (Lacks-moved c a (y ++ c ∷ b) (cc e) h))
last-split c (d ∷ x) [] a b h k e =
    absurd (Lacks-none c x a (Lacks-moved c b (x ++ c ∷ a) (cc e) k))
last-split c (d ∷ x) (f ∷ y) a b h k e =
    let behind = last-split c x y a b h k cc in (cc (behind.0), behind.1)

not_colon : (c : ℕ) → is_digit c ≡ true → c ≢ b':'
unfolding is_digit
not_colon c h e = ground arith

digits-Lacks : (t : Text) → IsDigits t → Lacks b':' t
digits-Lacks [] h = tt
digits-Lacks (c ∷ t) (h, k) = ((λ e. not_colon c h e), digits-Lacks t k)

decimal_injective : (m n : ℕ) → decimal m ≡ decimal n → m ≡ n
decimal_injective m n e = sym (number_from-decimal m) ∙ ap (number_from 0) e ∙ number_from-decimal n

-- Two accounts whose users hold no `@` have the same key only where user, host and port agree, with
-- an absent user or host read as the empty text and an absent port as 22. So a stored password is
-- never read for another account.
pub secret_key-same :
    (a b : CredentialIdentity)
    → Lacks b'@' (value_or a.user [])
    → Lacks b'@' (value_or b.user [])
    → secret_key a ≡ secret_key b
    → (value_or a.user [] ≡ value_or b.user [])
      × (value_or a.host [] ≡ value_or b.host [])
      × (value_or a.port 22 ≡ value_or b.port 22)
unfolding secret_key
secret_key-same a b h k e =
    let at =
      first-split b'@' (value_or a.user []) (value_or b.user []) _ _ h k
        (append-cancel key_prefix _ _ e) in
    let colon =
      last-split b':' (value_or a.host []) (value_or b.host []) (decimal (value_or a.port 22))
        (decimal (value_or b.port 22))
        (digits-Lacks (decimal (value_or a.port 22)) (decimal-IsDigits (value_or a.port 22)))
        (digits-Lacks (decimal (value_or b.port 22)) (decimal-IsDigits (value_or b.port 22)))
        at.1 in
    (at.0, colon.0, decimal_injective _ _ colon.1)
