-- ===== src/Ps2/Keys.antt =====
-- What the decoder makes of each key, whatever modifiers are on.
use osdev.Prelude.{
  ◌<◌, ◌+◌, ◌-◌, ◌^◌, ◌%◌, length, ltb, leb, get_or, ◌&&◌, ap, ◌∙◌, ◌⊎◌, ◌==◌, ℕ, Bool, true, false,
  ◌≡◌, if◌then◌else◌, arith,
}
use osdev.Kevent.Key.{
  KeventKey, keycode, key_1, key_2, key_3, key_4, key_5, key_6, key_7, key_8, key_9, key_0,
  key_minus, key_equal, key_backspace, key_tab, key_q, key_w, key_e, key_r, key_t, key_y, key_u,
  key_i, key_o, key_p, key_leftbrace, key_rightbrace, key_enter, key_a, key_s, key_d, key_f, key_g,
  key_h, key_j, key_k, key_l, key_semicolon, key_apostrophe, key_grave, key_backslash, key_z, key_x,
  key_c, key_v, key_b, key_n, key_m, key_comma, key_dot, key_slash, key_space, key_kpasterisk,
  key_kp7, key_kp8, key_kp9, key_kpminus, key_kp4, key_kp5, key_kp6, key_kpplus, key_kp1, key_kp2,
  key_kp3, key_kp0, key_kpdot, key_kpjpcomma, key_kpenter, key_kpslash, key_kpequal,
  key_kpplusminus, key_kpcomma,
}
use osdev.Ps2.{ps2_sc1, upper, Ps2, isalpha, differ, shifted, cased, ps2_char}

-- The two characters on a key of a US keyboard, without and with shift; 0 for none.
abbrev pub engraved : KeventKey → ℕ × ℕ
engraved key_1 = (b'1', b'!')
engraved key_2 = (b'2', b'@')
engraved key_3 = (b'3', b'#')
engraved key_4 = (b'4', b'$')
engraved key_5 = (b'5', b'%')
engraved key_6 = (b'6', b'^')
engraved key_7 = (b'7', b'&')
engraved key_8 = (b'8', b'*')
engraved key_9 = (b'9', b'(')
engraved key_0 = (b'0', b')')
engraved key_minus = (b'-', b'_')
engraved key_equal = (b'=', b'+')
engraved key_backspace = (8, 8)
engraved key_tab = (9, 9)
engraved key_q = (b'q', b'Q')
engraved key_w = (b'w', b'W')
engraved key_e = (b'e', b'E')
engraved key_r = (b'r', b'R')
engraved key_t = (b't', b'T')
engraved key_y = (b'y', b'Y')
engraved key_u = (b'u', b'U')
engraved key_i = (b'i', b'I')
engraved key_o = (b'o', b'O')
engraved key_p = (b'p', b'P')
engraved key_leftbrace = (b'[', b'{')
engraved key_rightbrace = (b']', b'}')
engraved key_enter = (10, 10)
engraved key_a = (b'a', b'A')
engraved key_s = (b's', b'S')
engraved key_d = (b'd', b'D')
engraved key_f = (b'f', b'F')
engraved key_g = (b'g', b'G')
engraved key_h = (b'h', b'H')
engraved key_j = (b'j', b'J')
engraved key_k = (b'k', b'K')
engraved key_l = (b'l', b'L')
engraved key_semicolon = (b';', b':')
engraved key_apostrophe = (39, 34)
engraved key_grave = (b'`', b'~')
engraved key_backslash = (92, b'|')
engraved key_z = (b'z', b'Z')
engraved key_x = (b'x', b'X')
engraved key_c = (b'c', b'C')
engraved key_v = (b'v', b'V')
engraved key_b = (b'b', b'B')
engraved key_n = (b'n', b'N')
engraved key_m = (b'm', b'M')
engraved key_comma = (b',', b'<')
engraved key_dot = (b'.', b'>')
engraved key_slash = (b'/', b'?')
engraved key_space = (b' ', b' ')
engraved key = (0, 0)

abbrev pub is_keypad : KeventKey → Bool
is_keypad key_kpasterisk = true
is_keypad key_kp7 = true
is_keypad key_kp8 = true
is_keypad key_kp9 = true
is_keypad key_kpminus = true
is_keypad key_kp4 = true
is_keypad key_kp5 = true
is_keypad key_kp6 = true
is_keypad key_kpplus = true
is_keypad key_kp1 = true
is_keypad key_kp2 = true
is_keypad key_kp3 = true
is_keypad key_kp0 = true
is_keypad key_kpdot = true
is_keypad key_kpjpcomma = true
is_keypad key_kpenter = true
is_keypad key_kpslash = true
is_keypad key_kpequal = true
is_keypad key_kpplusminus = true
is_keypad key_kpcomma = true
is_keypad key = false

-- Caps lock turns the two characters of a letter round, and of no other key.
abbrev pub typed : Bool → Bool → KeventKey → ℕ
typed shift caps k =
    if isalpha (engraved k).0
    then (if differ shift caps then (engraved k).1 else (engraved k).0)
    else (if shift then (engraved k).1 else (engraved k).0)

ps2_sc1-keycode :
    (k : KeventKey) → is_keypad k ≡ false → get_or ps2_sc1 (keycode k) 0 ≡ (engraved k).0
ps2_sc1-keycode k h = ground arith

in_table :
    (k : KeventKey)
    → is_keypad k ≡ false
    → (ltb (keycode k) (length ps2_sc1) && leb 1 (get_or ps2_sc1 (keycode k) 0))
      ≡ leb 1 (engraved k).0
in_table k h = ground arith

-- The character that the decoder makes of a table's character.
abbrev made : Ps2 → ℕ → ℕ
made st c = if leb 1 c then cased st (if st.shift then shifted c else c) else 0

ps2_char-made :
    (st : Ps2) (k : KeventKey)
    → is_keypad k ≡ false
    → ps2_char st (keycode k) ≡ made st (engraved k).0
unfolding ps2_char
ps2_char-made st k h =
    ap
      (λ b.
        if b
        then cased st (
            if st.shift
            then shifted (get_or ps2_sc1 (keycode k) 0)
            else get_or ps2_sc1 (keycode k) 0)
        else 0)
      (in_table k h)
    ∙ ap (λ c. if leb 1 (engraved k).0 then cased st (if st.shift then shifted c else c) else 0)
        (ps2_sc1-keycode k h)

-- `shifted` without the wrap.
abbrev row : ℕ → ℕ
row c = if leb 39 c && ltb c 62 then get_or upper (c - 39) 0 else c

unshared : ℕ → ℕ
unshared c =
    if c == b'['
    then b'{'
    else if c == 92
    then b'|'
    else if c == b']'
    then b'}'
    else if c == b'`'
    then b'~'
    else row c

shifted-unshared : (c : ℕ) → c < 128 → shifted c ≡ unshared c
unfolding shifted unshared
shifted-unshared c h = ground (arith, wrap)
  where
    wrap : (c < 39) ⊎ ((2 ^ 32 + c - 39) % 2 ^ 32 ≡ c - 39)
    wrap = omega arith

engraved-lt : (k : KeventKey) → (engraved k).0 < 128
engraved-lt k = ground arith

unshared-engraved :
    (k : KeventKey)
    → unshared (engraved k).0 ≡ (if isalpha (engraved k).0 then (engraved k).0 else (engraved k).1)
unfolding unshared
unshared-engraved k = ground arith

shifted-engraved :
    (k : KeventKey)
    → shifted (engraved k).0 ≡ (if isalpha (engraved k).0 then (engraved k).0 else (engraved k).1)
shifted-engraved k = shifted-unshared (engraved k).0 (engraved-lt k) ∙ unshared-engraved k

plain :
    (ext : Bool) (k : KeventKey)
    → made (record { ext = ext; shift = false; caps = false }) (engraved k).0 ≡ typed false false k
unfolding cased
plain ext k = ground arith

with_caps :
    (ext : Bool) (k : KeventKey)
    → made (record { ext = ext; shift = false; caps = true }) (engraved k).0 ≡ typed false true k
unfolding cased
with_caps ext k = ground arith

with_shift :
    (ext : Bool) (k : KeventKey)
    → made (record { ext = ext; shift = true; caps = false }) (engraved k).0 ≡ typed true false k
unfolding cased
with_shift ext k = rw (made, shifted-engraved k) (ground arith)

with_both :
    (ext : Bool) (k : KeventKey)
    → made (record { ext = ext; shift = true; caps = true }) (engraved k).0 ≡ typed true true k
unfolding cased
with_both ext k = rw (made, shifted-engraved k) (ground arith)

-- For every key that is not on the keypad and every state of shift and caps lock, the decoder
-- makes of the scancode that is the key's code the character that a US keyboard has there.
pub ps2_char-typed :
    (ext shift caps : Bool) (k : KeventKey)
    → is_keypad k ≡ false
    → ps2_char (record { ext = ext; shift = shift; caps = caps }) (keycode k) ≡ typed shift caps k
ps2_char-typed ext false false k h = ps2_char-made _ k h ∙ plain ext k
ps2_char-typed ext false true k h = ps2_char-made _ k h ∙ with_caps ext k
ps2_char-typed ext true false k h = ps2_char-made _ k h ∙ with_shift ext k
ps2_char-typed ext true true k h = ps2_char-made _ k h ∙ with_both ext k
