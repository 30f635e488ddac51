-- ===== src/Kevent/Key.antt =====
-- include/kernel/kevent.h: the keys, and their codes.
use osdev.Prelude.{ℕ}

-- `kevent_key_t`
pub data KeventKey : Type 0 where
  key_reserved key_esc key_1 key_2 key_3 key_4 key_5 key_6 key_7 key_8 key_9 key_0 key_minus :
      KeventKey
  key_equal key_backspace key_tab key_q key_w key_e key_r key_t key_y key_u key_i key_o key_p :
      KeventKey
  key_leftbrace key_rightbrace key_enter key_leftctrl key_a key_s key_d key_f key_g key_h key_j :
      KeventKey
  key_k key_l key_semicolon key_apostrophe key_grave key_leftshift key_backslash key_z key_x :
      KeventKey
  key_c key_v key_b key_n key_m key_comma key_dot key_slash key_rightshift key_kpasterisk :
      KeventKey
  key_leftalt key_space key_capslock key_f1 key_f2 key_f3 key_f4 key_f5 key_f6 key_f7 key_f8 :
      KeventKey
  key_f9 key_f10 key_numlock key_scrolllock key_kp7 key_kp8 key_kp9 key_kpminus key_kp4 key_kp5 :
      KeventKey
  key_kp6 key_kpplus key_kp1 key_kp2 key_kp3 key_kp0 key_kpdot key_zenkakuhankaku key_102nd :
      KeventKey
  key_f11 key_f12 key_r0 key_katakana key_hiragana key_henkan key_katakanahiragana key_muhenkan :
      KeventKey
  key_kpjpcomma key_kpenter key_rightctrl key_kpslash key_sysrq key_rightalt key_linefeed :
      KeventKey
  key_home key_up key_pageup key_left key_right key_end key_down key_pagedown key_insert : KeventKey
  key_delete key_macro key_mute key_volumedown key_volumeup key_power key_kpequal : KeventKey
  key_kpplusminus key_pause key_scale key_kpcomma key_hanguel key_hanja key_yen key_leftmeta :
      KeventKey
  key_rightmeta key_compose : KeventKey

-- The value of an enumerator.
abbrev pub keycode : KeventKey → ℕ
keycode key_reserved = 0
keycode key_esc = 1
keycode key_1 = 2
keycode key_2 = 3
keycode key_3 = 4
keycode key_4 = 5
keycode key_5 = 6
keycode key_6 = 7
keycode key_7 = 8
keycode key_8 = 9
keycode key_9 = 10
keycode key_0 = 11
keycode key_minus = 12
keycode key_equal = 13
keycode key_backspace = 14
keycode key_tab = 15
keycode key_q = 16
keycode key_w = 17
keycode key_e = 18
keycode key_r = 19
keycode key_t = 20
keycode key_y = 21
keycode key_u = 22
keycode key_i = 23
keycode key_o = 24
keycode key_p = 25
keycode key_leftbrace = 26
keycode key_rightbrace = 27
keycode key_enter = 28
keycode key_leftctrl = 29
keycode key_a = 30
keycode key_s = 31
keycode key_d = 32
keycode key_f = 33
keycode key_g = 34
keycode key_h = 35
keycode key_j = 36
keycode key_k = 37
keycode key_l = 38
keycode key_semicolon = 39
keycode key_apostrophe = 40
keycode key_grave = 41
keycode key_leftshift = 42
keycode key_backslash = 43
keycode key_z = 44
keycode key_x = 45
keycode key_c = 46
keycode key_v = 47
keycode key_b = 48
keycode key_n = 49
keycode key_m = 50
keycode key_comma = 51
keycode key_dot = 52
keycode key_slash = 53
keycode key_rightshift = 54
keycode key_kpasterisk = 55
keycode key_leftalt = 56
keycode key_space = 57
keycode key_capslock = 58
keycode key_f1 = 59
keycode key_f2 = 60
keycode key_f3 = 61
keycode key_f4 = 62
keycode key_f5 = 63
keycode key_f6 = 64
keycode key_f7 = 65
keycode key_f8 = 66
keycode key_f9 = 67
keycode key_f10 = 68
keycode key_numlock = 69
keycode key_scrolllock = 70
keycode key_kp7 = 71
keycode key_kp8 = 72
keycode key_kp9 = 73
keycode key_kpminus = 74
keycode key_kp4 = 75
keycode key_kp5 = 76
keycode key_kp6 = 77
keycode key_kpplus = 78
keycode key_kp1 = 79
keycode key_kp2 = 80
keycode key_kp3 = 81
keycode key_kp0 = 82
keycode key_kpdot = 83
keycode key_zenkakuhankaku = 85
keycode key_102nd = 86
keycode key_f11 = 87
keycode key_f12 = 88
keycode key_r0 = 89
keycode key_katakana = 90
keycode key_hiragana = 91
keycode key_henkan = 92
keycode key_katakanahiragana = 93
keycode key_muhenkan = 94
keycode key_kpjpcomma = 95
keycode key_kpenter = 96
keycode key_rightctrl = 97
keycode key_kpslash = 98
keycode key_sysrq = 99
keycode key_rightalt = 100
keycode key_linefeed = 101
keycode key_home = 102
keycode key_up = 103
keycode key_pageup = 104
keycode key_left = 105
keycode key_right = 106
keycode key_end = 107
keycode key_down = 108
keycode key_pagedown = 109
keycode key_insert = 110
keycode key_delete = 111
keycode key_macro = 112
keycode key_mute = 113
keycode key_volumedown = 114
keycode key_volumeup = 115
keycode key_power = 116
keycode key_kpequal = 117
keycode key_kpplusminus = 118
keycode key_pause = 119
keycode key_scale = 120
keycode key_kpcomma = 121
keycode key_hanguel = 122
keycode key_hanja = 123
keycode key_yen = 124
keycode key_leftmeta = 125
keycode key_rightmeta = 126
keycode key_compose = 127
