-- ===== src/Auth/Pseudonym.antt =====
-- What `pseudonym` of crates/postgresem/src/mcp_http_auth.rs tells apart.
use mathlib.Core.List.{append_assoc, append-nil}
use postgresem.Prelude.{
  ℕ, ◌+◌, ◌*◌, ◌^◌, ◌<◌, ◌≡◌, refl, sym, ap, ◌∙◌, String, List, [], ◌∷◌, ◌++◌, arith, length,
}
use postgresem.Prelude.Results.{ok}
use postgresem.Prelude.Text.{as_bytes}
use postgresem.Auth.Token.{be64, field_bytes, pseudonym_message, pseudonym_domain}

-- the number whose big-endian bytes the list is
value_of : List ℕ → ℕ → ℕ
value_of [] n = n
value_of (b ∷ bs) n = value_of bs (n * 256 + b)

value_of-be64 : (n : ℕ) → n < 2 ^ 64 → value_of (be64 n) 0 ≡ n
unfolding be64 value_of
value_of-be64 n h = omega arith

module _ {ℓ} {A : Type ℓ} where
  append_cancel :
      (xs ys zs ws : List A) → length xs ≡ length ys → xs ++ zs ≡ ys ++ ws → (xs ≡ ys) × (zs ≡ ws)
  append_cancel [] [] zs ws h e = (refl, e)
  append_cancel [] (y ∷ ys) zs ws h e = absurd (omega (arith, h))
  append_cancel (x ∷ xs) [] zs ws h e = absurd (omega (arith, h))
  append_cancel (x ∷ xs) (y ∷ ys) zs ws h e =
      let (p, q) = append_cancel xs ys zs ws (omega (arith, h)) cc in (cc, q)

length-be64 : (n : ℕ) → length (be64 n) ≡ 8
unfolding be64
length-be64 n = refl

-- the bytes of a field whose length is a `u64`
abbrev framed : List ℕ → List ℕ
framed field = be64 (length field) ++ field

-- A field is read back from the bytes that begin with it.
framed-injective :
    (a b rest more : List ℕ)
    → length a < 2 ^ 64
    → length b < 2 ^ 64
    → framed a ++ rest ≡ framed b ++ more
    → (a ≡ b) × (rest ≡ more)
framed-injective a b rest more h k e =
    let (sizes, fields) =
      append_cancel (be64 (length a)) (be64 (length b)) (a ++ rest) (b ++ more)
        (length-be64 (length a) ∙ sym (length-be64 (length b)))
        (sym (append_assoc (be64 (length a)) a rest) ∙ e ∙ append_assoc (be64 (length b)) b more) in
    let same =
      sym (value_of-be64 (length a) h)
      ∙ ap (λ bs. value_of bs 0) sizes
      ∙ value_of-be64 (length b) k in
    append_cancel a b rest more same fields

pseudonym_message-framed :
    (issuer subject : String) (message : List ℕ)
    → pseudonym_message issuer subject ≡ ok message
    → (length (as_bytes issuer) < 2 ^ 64)
      × (length (as_bytes subject) < 2 ^ 64)
      × (as_bytes pseudonym_domain ++ (framed (as_bytes issuer) ++ framed (as_bytes subject))
          ≡ message)
unfolding pseudonym_message field_bytes
pseudonym_message-framed issuer subject message h = ground arith

-- The message of a pseudonym tells the issuer and the subject: two issuers and two subjects give the
-- same message only when their bytes are the same, wherever one of them ends and the other starts.
pub pseudonym_message-injective :
    (issuer issuer' subject subject' : String) (message : List ℕ)
    → pseudonym_message issuer subject ≡ ok message
    → pseudonym_message issuer' subject' ≡ ok message
    → (as_bytes issuer ≡ as_bytes issuer') × (as_bytes subject ≡ as_bytes subject')
pseudonym_message-injective issuer issuer' subject subject' message made made' =
    let (h, k, e) = pseudonym_message-framed issuer subject message made in
    let (h', k', e') = pseudonym_message-framed issuer' subject' message made' in
    let (_, fields) =
      append_cancel (as_bytes pseudonym_domain) (as_bytes pseudonym_domain) _ _ refl (e ∙ sym e') in
    let (issuers, rest) =
      framed-injective (as_bytes issuer) (as_bytes issuer') (framed (as_bytes subject))
        (framed (as_bytes subject')) h h' fields in
    let (subjects, _) = framed-injective (as_bytes subject) (as_bytes subject') [] [] k k' (
      append-nil (framed (as_bytes subject))
      ∙ rest
      ∙ sym (append-nil (framed (as_bytes subject')))) in
    (issuers, subjects)
