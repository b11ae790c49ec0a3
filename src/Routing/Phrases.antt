-- ===== src/Routing/Phrases.antt =====
-- The regular expressions of the router: `\b(phrase|phrase|...)\b` over lower-case text, where a
-- phrase is made of literal pieces and of optional or single separators.
use psychic_octo_invention.Prelude.{
  ℕ, String, Bool, true, false, not, ◌&&◌, ◌||◌, Option, none, some, List, [], ◌∷◌, ◌++◌, Text,
  codes, eqb, leb, any, if◌then◌else◌, ◌≡◌, refl,
}

pub data Piece : Type 0 where
  lit : String → Piece
  -- A character class, as in `step[- ]by`, and an optional one, as in `trade[- ]?offs`.
  one_of maybe_of : String → Piece

abbrev pub Phrase : Type 0
Phrase = List Piece

-- `\w`, without Unicode flags.
is_word : ℕ → Bool
is_word c =
    (leb b'a' c && leb c b'z')
    || (leb b'A' c && leb c b'Z')
    || (leb b'0' c && leb c b'9')
    || eqb c b'_'

word_at : Option ℕ → Bool
word_at none = false
word_at (some c) = is_word c

next : Text → Option ℕ
next [] = none
next (c ∷ s) = some c

-- `\b` between a character, if there is one, and the text behind it.
boundary : Option ℕ → Text → Bool
boundary prev s = if word_at prev then not (word_at (next s)) else word_at (next s)

-- A position in the text: the character before it and the text behind it.
abbrev Position : Type 0
Position = Option ℕ × Text

match_lit : Text → Position → List Position
match_lit [] p = p ∷ []
match_lit (c ∷ l) (prev, []) = []
match_lit (c ∷ l) (prev, d ∷ s) = let rest = match_lit l (some d, s) in if eqb c d then rest else []

match_one : Text → Position → List Position
match_one cs (prev, []) = []
match_one cs (prev, d ∷ s) = if any (eqb d) cs then (some d, s) ∷ [] else []

match_piece : Piece → Position → List Position
match_piece (lit l) p = match_lit (codes l) p
match_piece (one_of cs) p = match_one (codes cs) p
match_piece (maybe_of cs) p = match_one (codes cs) p ++ (p ∷ [])

flat : (Position → List Position) → List Position → List Position
flat f [] = []
flat f (p ∷ ps) = f p ++ flat f ps

-- The positions behind the matches of a phrase that begin at a position.
match_phrase : Phrase → Position → List Position
match_phrase [] p = p ∷ []
match_phrase (piece ∷ phrase) p = flat (match_phrase phrase) (match_piece piece p)

-- The ends of `\b(...)\b` at one position.
ends_at : List Phrase → Position → List Position
ends_at [] p = []
ends_at (phrase ∷ phrases) p = match_phrase phrase p ++ ends_at phrases p

matches_at : (Position → Bool) → List Phrase → Position → Bool
matches_at k phrases (prev, s) =
    boundary prev s && any (λ e. boundary e.0 e.1 && k e) (ends_at phrases (prev, s))

search_from : (Position → Bool) → List Phrase → Option ℕ → Text → Bool
search_from k phrases prev [] = matches_at k phrases (prev, [])
search_from k phrases prev (c ∷ s) =
    matches_at k phrases (prev, c ∷ s) || search_from k phrases (some c) s

always : Position → Bool
always p = true

-- `/\b(...)\b/.test(text)`
unfoldable pub test_words : List Phrase → Text → Bool
unfolding search_from matches_at ends_at match_phrase flat match_piece match_one match_lit boundary
    next word_at is_word always
test_words phrases s = search_from always phrases none s

-- What `.*` can cross: the text up to the end of its line.
line : Text → Text
line [] = []
line (c ∷ s) = if any (eqb c) (10 ∷ 13 ∷ 0x2028 ∷ 0x2029 ∷ []) then [] else c ∷ line s

-- `/\b(...)\b.*\b(...)\b/.test(text)`, for second phrases that hold no line terminator. The cut
-- behind a line is a boundary exactly where its terminator is one, since that is no word character.
unfoldable pub test_words_then : List Phrase → List Phrase → Text → Bool
unfolding test_words line
test_words_then first second s =
    search_from (λ e. search_from always second e.0 (line e.1)) first none s

abbrev pub words : List String → List Phrase
words [] = []
words (w ∷ ws) = (lit w ∷ []) ∷ words ws

test_words_tests :
    (test_words (words ("lead" ∷ [])) (codes "new lead!") ≡ true)
    × (test_words (words ("lead" ∷ [])) (codes "leader") ≡ false)
    × (test_words ((lit "follow" ∷ maybe_of "- " ∷ lit "up" ∷ []) ∷ []) (codes "a follow-up")
        ≡ true)
    × (test_words_then (words ("set" ∷ [])) (words ("tag" ∷ [])) (codes "set the tag") ≡ true)
    × (test_words_then (words ("set" ∷ [])) (words ("tag" ∷ [])) (codes "tag the set") ≡ false)
unfolding test_words test_words_then
test_words_tests = (refl, refl, refl, refl, refl)
