-- ===== src/Os/Texts/Shared.antt =====
-- What the question before a command does not tell.
use dotagent.Common.{ℕ, ◌≡◌, refl, ap, List, [], ◌∷◌, ◌++◌, append_assoc}
use dotagent.Common.Text.{Text, codes, decimal}
use dotagent.Common.Text.Lines.{join_with}
use dotagent.Os.Texts.{confirmation_prompt}

join_with-blank :
    (a b : Text) (args : List Text)
    → join_with (codes " ") ((a ++ (32 ∷ b)) ∷ args) ≡ join_with (codes " ") (a ∷ b ∷ args)
join_with-blank a b [] = refl
join_with-blank a b (c ∷ args) =
    append_assoc a (32 ∷ b) (codes " " ++ join_with (codes " ") (c ∷ args))

-- An argument with a blank and the two arguments around the blank are asked about in the same words.
pub confirmation_prompt-shared :
    (bin a b : Text) (args : List Text) (ttl_seconds : ℕ)
    → confirmation_prompt bin ((a ++ (32 ∷ b)) ∷ args) ttl_seconds
      ≡ confirmation_prompt bin (a ∷ b ∷ args) ttl_seconds
confirmation_prompt-shared bin a b args ttl_seconds =
    ap
      (λ s.
        codes "This will run:"
        ++ (10
            ∷ 10
            ∷ (codes "    "
                ++ (bin
                    ++ ((32 ∷ s)
                        ++ (10
                            ∷ 10
                            ∷ (codes "Send `!!` to confirm. It expires in "
                                ++ (decimal ttl_seconds ++ codes "s."))))))))
      (join_with-blank a b args)
