-- ===== src/Asio/Chat/Keys.antt =====
-- What a user types: the input line against a stack of characters.
use server_programming.Base.{
  ℕ, ◌≡◌, refl, ap, ◌∙◌, Bool, Option, none, some, false, not, ◌&&◌, List, [], ◌∷◌, ◌++◌, arith,
  ◌==◌, if◌then◌else◌,
}
use server_programming.Asio.Message.{Message}
use server_programming.Asio.ClientSide.{ClientSide, send}
use server_programming.Asio.Chat.Client.{
  CustomClient, on_key, enter, say, saying, send_all, erase_last, is_blank, same_text, exit_text,
}

-- Keys one after the other
abbrev pub press : CustomClient → List ℕ → CustomClient
press c [] = c
press c (k ∷ ks) = press (on_key c k) ks

-- The last character stands first. Backspace takes one off, or is a character itself on the empty
-- line; Escape is none.
unfoldable pub typed : List ℕ → ℕ → List ℕ
typed [] k = if k == 27 then [] else k ∷ []
typed (c ∷ st) k = if k == 8 then st else if k == 27 then c ∷ st else k ∷ c ∷ st

abbrev pub typed_all : List ℕ → List ℕ → List ℕ
typed_all st [] = st
typed_all st (k ∷ ks) = typed_all (typed st k) ks

-- The stack as a line
unfoldable pub line_of : List ℕ → List ℕ
line_of [] = []
line_of (c ∷ st) = line_of st ++ (c ∷ [])

-- No key is Enter.
abbrev pub NoEnter : List ℕ → Type 0
NoEnter [] = Unit {0}
NoEnter (k ∷ ks) = ((k == 13) ≡ false) × NoEnter ks

erase_last-append : (l : List ℕ) (c : ℕ) → erase_last (l ++ (c ∷ [])) ≡ l
unfolding erase_last
erase_last-append [] c = refl
erase_last-append (d ∷ []) c = refl
erase_last-append (d ∷ e ∷ l) c = ap (◌∷◌ d) (erase_last-append (e ∷ l) c)

is_blank-append : (l : List ℕ) (c : ℕ) → is_blank (l ++ (c ∷ [])) ≡ false
unfolding is_blank
is_blank-append [] c = refl
is_blank-append (d ∷ l) c = refl

-- What a key leaves alone
abbrev SameElse : CustomClient → CustomClient → Type 0
SameElse c c' = (c'.net ≡ c.net) × (c'.loop ≡ c.loop) × (c'.user_name ≡ c.user_name)

on_key-typed :
    (c : CustomClient) (st : List ℕ) (k : ℕ)
    → (k == 13) ≡ false
    → c.input_data ≡ line_of st
    → ((on_key c k).input_data ≡ line_of (typed st k)) × SameElse c (on_key c k)
unfolding on_key typed line_of is_blank
on_key-typed c [] k plain e = ground arith
on_key-typed c (d ∷ st) k plain e =
    ground (arith, erase_last-append (line_of st) d, is_blank-append (line_of st) d)

press-typed :
    (c : CustomClient) (st ks : List ℕ)
    → NoEnter ks
    → c.input_data ≡ line_of st
    → ((press c ks).input_data ≡ line_of (typed_all st ks)) × SameElse c (press c ks)
press-typed c st [] plain e = (e, (refl, refl, refl))
press-typed c st (k ∷ ks) plain e =
    let (line, (net, loop, name)) = on_key-typed c st k plain.0 e in
    let (line', (net', loop', name')) = press-typed (on_key c k) (typed st k) ks plain.1 line in
    (line', (net' ∙ net, loop' ∙ loop, name' ∙ name))

press-append : (c : CustomClient) (ks ls : List ℕ) → press c (ks ++ ls) ≡ press (press c ks) ls
press-append c [] ls = refl
press-append c (k ∷ ks) ls = press-append (on_key c k) ks ls

send_all-net :
    (c c' : CustomClient) (m : Option Message)
    → c'.net ≡ c.net
    → (send_all c' m).net ≡ (send_all c m).net
unfolding send_all
send_all-net c c' none e = e
send_all-net c c' (some m) e = ap (λ (n : ClientSide). send n m) e

say-net :
    (c c' : CustomClient) (s : List ℕ)
    → c'.net ≡ c.net
    → c'.user_name ≡ c.user_name
    → (say c' s).net ≡ (say c s).net
unfolding say
say-net c c' s e f =
    ap (λ (name : List ℕ). (send_all c' (saying name s)).net) f
    ∙ send_all-net c c' (saying c.user_name s) e

send_all-loop : (c : CustomClient) (m : Option Message) → (send_all c m).loop ≡ c.loop
unfolding send_all
send_all-loop c none = refl
send_all-loop c (some m) = refl

enter_lem :
    (c c₁ : CustomClient)
    → SameElse c c₁
    → ((enter c₁).net ≡ (say c c₁.input_data).net)
      × ((enter c₁).input_data ≡ [])
      × ((enter c₁).loop ≡ (c.loop && not (same_text c₁.input_data exit_text)))
unfolding enter
enter_lem c c₁ (net, loop, name) = (
  say-net c _ c₁.input_data net name,
  refl,
  send_all-loop _ (saying c₁.user_name c₁.input_data)
      ∙ ap (λ (b : Bool). b && not (same_text c₁.input_data exit_text)) loop,
)

-- A user who types any keys but Enter on an empty line, and then Enter, says the text that the stack
-- of these keys gives; the line is empty again, and the client goes on unless it had stopped or the
-- text is "exit".
pub typed_is_said :
    (c : CustomClient) (ks : List ℕ)
    → c.input_data ≡ []
    → NoEnter ks
    → let text = line_of (typed_all [] ks) in
      let c' = press c (ks ++ (13 ∷ [])) in
      (c'.net ≡ (say c text).net)
      × (c'.input_data ≡ [])
      × (c'.loop ≡ (c.loop && not (same_text text exit_text)))
unfolding on_key line_of
typed_is_said c ks empty plain =
    let (line, same) = press-typed c [] ks plain empty in
    let (net, input, loop) = enter_lem c (press c ks) same in
    let last = press-append c ks (13 ∷ []) in
    (
      ap (λ (d : CustomClient). d.net) last ∙ net ∙ ap (λ (text : List ℕ). (say c text).net) line,
      ap (λ (d : CustomClient). d.input_data) last ∙ input,
      ap (λ (d : CustomClient). d.loop) last
          ∙ loop
          ∙ ap (λ (text : List ℕ). c.loop && not (same_text text exit_text)) line,
    )
