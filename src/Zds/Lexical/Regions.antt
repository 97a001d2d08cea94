-- ===== src/Zds/Lexical/Regions.antt =====
-- The quoted regions of a line, by a state machine of their own: the scanners agree with it.
use mos_agondev.Prelude.{
  &&-true, Bool, Bool-cases, [], any, ap, arith, contains, false, if◌then◌else◌, inl, inr, length,
  list_eq, nat_eq, none, not, option_eq, pair_eq, refl, some, suc, true, ℕ, ◌&&◌, ◌++◌, ◌==◌, ◌∙◌,
  ◌∷◌, ◌≡◌, ◌⊎◌,
}
use mos_agondev.Text.{Str}
use mos_agondev.Zds.Lexical.{
  Quoting, comment_from, comment_round, is_quote, mask_from, mask_quoted, mask_round, split_comment,
  unquoted,
}

-- where a character stands: outside strings, in a string, or behind a backslash in a string
pub data Region : Type 0 where
  outside : Region
  inside behind : ℕ → Region

unfoldable pub after : Region → ℕ → Region
after outside c = if is_quote c then inside c else outside
after (inside q) c = if c == b'\\' then behind q else if c == q then outside else inside q
after (behind q) c = inside q

-- a character outside that opens no string is plain
unfoldable pub is_plain : Region → ℕ → Bool
is_plain outside c = not (is_quote c)
is_plain _ c = false

-- `f` at the plain characters, `g` at the others
unfoldable pub overlay : (ℕ → ℕ) → (ℕ → ℕ) → Region → Str → Str
unfolding after is_plain
overlay f g r [] = []
overlay f g r (c ∷ cs) = (if is_plain r c then f c else g c) ∷ overlay f g (after r c) cs

unfoldable pub region_after : Region → Str → Region
region_after r [] = r
region_after r (c ∷ cs) = region_after (after r c) cs

abbrev pub quoting : Region → Quoting
quoting outside = unquoted
quoting (inside q) = record { quote = some q; escaped = false }
quoting (behind q) = record { quote = some q; escaped = true }

mask_round-after : (r : Region) (c : ℕ) → (mask_round (quoting r) c).0 ≡ quoting (after r c)
unfolding mask_round after
mask_round-after outside c = ground arith
mask_round-after (inside q) c = ground arith
mask_round-after (behind q) c = ground arith

mask_round-kept :
    (r : Region) (c : ℕ) → (mask_round (quoting r) c).1 ≡ (if is_plain r c then c else b' ')
unfolding mask_round is_plain
mask_round-kept outside c = ground arith
mask_round-kept (inside q) c = ground arith
mask_round-kept (behind q) c = ground arith

mask_from-overlay :
    (r : Region) (s : Str) → mask_from (quoting r) s ≡ overlay (λ c. c) (λ c. b' ') r s
unfolding mask_from overlay
mask_from-overlay r [] = refl
mask_from-overlay r (c ∷ cs) =
    rw (mask_round-after r c, mask_round-kept r c, mask_from-overlay (after r c) cs)

-- `mask_quoted` blanks every character that is not plain and keeps the others.
pub mask_quoted-overlay : (s : Str) → mask_quoted s ≡ overlay (λ c. c) (λ c. b' ') outside s
unfolding mask_quoted
mask_quoted-overlay s = mask_from-overlay outside s

overlay_self : (r : Region) (s : Str) → overlay (λ c. c) (λ c. c) r s ≡ s
unfolding overlay
overlay_self r [] = refl
overlay_self r (c ∷ cs) = ground (arith, overlay_self (after r c) cs)

length-overlay : (f g : ℕ → ℕ) (r : Region) (s : Str) → length (overlay f g r s) ≡ length s
unfolding overlay
length-overlay f g r [] = refl
length-overlay f g r (c ∷ cs) = ap suc (length-overlay f g (after r c) cs)

-- a text with no quote character is all plain
overlay-no_quote : (g : ℕ → ℕ) (s : Str) → any is_quote s ≡ false → overlay (λ c. c) g outside s ≡ s
unfolding overlay
overlay-no_quote g [] h = refl
overlay-no_quote g (c ∷ cs) h = ground (arith, overlay-no_quote g cs)

-- what is blanked holds no quote character
any-quote-mask : (r : Region) (s : Str) → any is_quote (overlay (λ c. c) (λ c. b' ') r s) ≡ false
unfolding overlay
any-quote-mask r [] = refl
any-quote-mask outside (c ∷ cs) = ground (arith, any-quote-mask (after outside c) cs)
any-quote-mask (inside q) (c ∷ cs) = ground (arith, any-quote-mask (after (inside q) c) cs)
any-quote-mask (behind q) (c ∷ cs) = ground (arith, any-quote-mask (after (behind q) c) cs)

-- The mask has the length of the text and no quote character, and masking it again changes
-- nothing.
pub mask_quoted_masks :
    (s : Str)
    → (length (mask_quoted s) ≡ length s)
      × (any is_quote (mask_quoted s) ≡ false)
      × (mask_quoted (mask_quoted s) ≡ mask_quoted s)
mask_quoted_masks s =
    let masked = overlay (λ c. c) (λ c. b' ') outside s in
    let clean = any-quote-mask outside s in
    (
      rw mask_quoted-overlay (length-overlay _ _ outside s),
      rw mask_quoted-overlay clean,
      rw (mask_quoted-overlay s) (mask_quoted-overlay masked ∙ overlay-no_quote _ masked clean),
    )

-- the code in front of the first semicolon outside strings
comment_round-after :
    (r : Region) (c : ℕ)
    → comment_round (quoting r) c
      ≡ (if is_plain r c && c == b';' then none else some (quoting (after r c)))
unfolding comment_round after is_plain
comment_round-after outside c = ground arith
comment_round-after (inside q) c = ground arith
comment_round-after (behind q) c = ground arith

-- What `comment_from` returns: the parts make up the text, the code has no plain semicolon, and
-- the comment is empty or begins with a plain semicolon.
record IsSplit (r : Region) (s : Str) (p : Str × Str) : Type 0 where
  whole : p.0 ++ p.1 ≡ s
  code_part : contains b';' (overlay (λ c. c) (λ c. b' ') r p.0) ≡ false
  comment_part : (p.1 ≡ []) ⊎ ((rest : Str) × (p.1 ≡ b';' ∷ rest) × (region_after r p.0 ≡ outside))

plain→outside : (r : Region) (c : ℕ) → is_plain r c ≡ true → r ≡ outside
unfolding is_plain
plain→outside outside c h = refl
plain→outside (inside q) c h = cc
plain→outside (behind q) c h = cc

comment_from-IsSplit : (r : Region) (s : Str) → IsSplit r s (comment_from (quoting r) s)
unfolding comment_from overlay region_after contains
comment_from-IsSplit r [] = record { whole = refl; code_part = refl; comment_part = inl refl }
comment_from-IsSplit r (c ∷ cs) =
    let ih = comment_from-IsSplit (after r c) cs in
    elim (Bool-cases (is_plain r c && c == b';')) [
      | inl e ↦
          rw (comment_round-after r c, e, comment_from)
            (record {
              whole = refl;
              code_part = refl;
              comment_part = inr (cs, ground arith, plain→outside r c (&&-true _ _ e).0);
            })
      | inr e ↦
          rw (comment_round-after r c, e, comment_from)
            (record {
              whole = ap (◌∷◌ c) ih.whole;
              code_part = ground (arith, ih.code_part);
              comment_part = ih.comment_part;
            })
    ]

-- The code and the comment make up the line. The code has no semicolon outside strings. A comment
-- begins with a semicolon, at a place outside strings.
pub split_comment_splits :
    (line : Str)
    → ((split_comment line).0 ++ (split_comment line).1 ≡ line)
      × (contains b';' (mask_quoted (split_comment line).0) ≡ false)
      × (((split_comment line).1 ≡ [])
          ⊎ ((rest : Str) × ((split_comment line).1 ≡ b';' ∷ rest)
              × (region_after outside (split_comment line).0 ≡ outside)))
unfolding split_comment
split_comment_splits line =
    let parts = comment_from-IsSplit outside line in
    (parts.whole, rw mask_quoted-overlay parts.code_part, parts.comment_part)
