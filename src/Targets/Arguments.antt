-- ===== src/Targets/Arguments.antt =====
-- The arguments of the debuggee: how `buildLaunchConfiguration` of
-- src/targetManager/targetConfig.ts cuts the text that the user typed.
use vscode_cann_debugger.Base.{
  ℕ, Bool, true, false, List, [], ◌∷◌, ◌++◌, Text, All, codes, is_space, trim, trim_start, trim_end,
  trim_start-solid, trim_end-solid, trim_end-append, ◌≡◌, ◌≢◌, refl, sym, ap, subst, append-nil,
  ◌∙◌,
}
use vscode_cann_debugger.Launch.Shell.{join}
use vscode_cann_debugger.Targets.{launch_args, words_of, split_spaces, onto_word}

abbrev pub IsWord : Text → Type 0
IsWord w = (w ≢ []) × All (λ c. is_space c ≡ false) w

abbrev pub AreWords : List Text → Type 0
AreWords = All IsWord

split_spaces-solid :
    (c : ℕ) (within : Bool) (t : Text)
    → is_space c ≡ false
    → split_spaces within (c ∷ t) ≡ onto_word c (split_spaces false t)
unfolding split_spaces
split_spaces-solid c true t h = rw h
split_spaces-solid c false t h = rw h

-- A word to the end of the text, and a word with a space behind it.
split_spaces-last : (w : Text) → All (λ c. is_space c ≡ false) w → split_spaces false w ≡ w ∷ []
unfolding split_spaces
split_spaces-last [] h = refl
split_spaces-last (c ∷ w) (h, k) =
    split_spaces-solid c false w h ∙ ap (onto_word c) (split_spaces-last w k)

split_spaces-word :
    (w t : Text)
    → All (λ c. is_space c ≡ false) w
    → split_spaces false (w ++ b' ' ∷ t) ≡ w ∷ split_spaces true t
unfolding split_spaces is_space
split_spaces-word [] t h = refl
split_spaces-word (c ∷ w) t (h, k) =
    split_spaces-solid c false (w ++ b' ' ∷ t) h ∙ ap (onto_word c) (split_spaces-word w t k)

split_spaces-start :
    (w t : Text) → IsWord w → split_spaces true (w ++ t) ≡ split_spaces false (w ++ t)
split_spaces-start [] t (h, k) = absurd (h refl)
split_spaces-start (c ∷ w) t (h, k) =
    split_spaces-solid c true (w ++ t) k.0 ∙ sym (split_spaces-solid c false (w ++ t) k.0)

abbrev one_line : List Text → Text
one_line ws = join (codes " ") ws

split_spaces-join :
    (w : Text) (ws : List Text)
    → AreWords (w ∷ ws)
    → split_spaces false (one_line (w ∷ ws)) ≡ w ∷ ws
unfolding join
split_spaces-join w [] (h, k) = split_spaces-last w h.1
split_spaces-join w (v ∷ ws) (h, k) =
    split_spaces-word w (one_line (v ∷ ws)) h.1
    ∙ ap (λ t. w ∷ t) (started ws k ∙ split_spaces-join v ws k)
  where
    started :
        (us : List Text)
        → AreWords (v ∷ us)
        → split_spaces true (one_line (v ∷ us)) ≡ split_spaces false (one_line (v ∷ us))
    started [] h =
        subst (λ t. split_spaces true t ≡ split_spaces false t) (append-nil v)
          (split_spaces-start v [] h.0)
    started (u ∷ us) h = split_spaces-start v (b' ' ∷ one_line (u ∷ us)) h.0

one_line-ne-nil : (w : Text) (ws : List Text) → IsWord w → one_line (w ∷ ws) ≢ []
unfolding join
one_line-ne-nil [] ws h = absurd (h.0 refl)
one_line-ne-nil (c ∷ w) [] h = λ e. cc
one_line-ne-nil (c ∷ w) (v ∷ ws) h = λ e. cc

trim_start-one_line :
    (w : Text) (ws : List Text) → IsWord w → trim_start (one_line (w ∷ ws)) ≡ one_line (w ∷ ws)
unfolding join
trim_start-one_line [] ws h = absurd (h.0 refl)
trim_start-one_line (c ∷ w) [] h = trim_start-solid c w h.1.0
trim_start-one_line (c ∷ w) (v ∷ ws) h = trim_start-solid c _ h.1.0

trim_end-one_line :
    (w : Text) (ws : List Text)
    → AreWords (w ∷ ws)
    → trim_end (one_line (w ∷ ws)) ≡ one_line (w ∷ ws)
unfolding join
trim_end-one_line w [] h = trim_end-solid w h.0.1
trim_end-one_line w (v ∷ ws) h =
    let behind = one_line (v ∷ ws) in
    trim_end-append w (b' ' ∷ behind) (λ e. cc)
      (trim_end-append (b' ' ∷ []) behind (one_line-ne-nil v ws h.1.0) (trim_end-one_line v ws h.1))

words_of-join :
    (w : Text) (ws : List Text) → AreWords (w ∷ ws) → words_of (one_line (w ∷ ws)) ≡ w ∷ ws
words_of-join w ws h =
    words_of-split (one_line (w ∷ ws)) (one_line-ne-nil w ws h.0) ∙ split_spaces-join w ws h
  where
    words_of-split : (t : Text) → t ≢ [] → words_of t ≡ split_spaces false t
    words_of-split [] h = absurd (h refl)
    words_of-split (c ∷ t) h = unfold words_of in refl

-- Words without white space, written with a space between them, come out as the debuggee's
-- arguments: the same words in the same order.
pub launch_args-join : (ws : List Text) → AreWords ws → launch_args (join (codes " ") ws) ≡ ws
unfolding launch_args trim
launch_args-join [] h = unfold words_of join trim_start trim_end in refl
launch_args-join (w ∷ ws) h =
    ap words_of (ap trim_end (trim_start-one_line w ws h.0) ∙ trim_end-one_line w ws h)
    ∙ words_of-join w ws h
