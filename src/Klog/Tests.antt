-- ===== src/Klog/Tests.antt =====
-- A message.
use osdev.Prelude.{ℕ, ◌<◌, ◌≤◌, ◌≡◌, ◌⊎◌, Option, none, List, [], ◌∷◌, arith, length}
use osdev.Klog.{Call, klog}
use osdev.Klog.Line.{Says, klog-line}

abbrev ata_name : List ℕ
ata_name = 97 ∷ 116 ∷ 97 ∷ []

-- "no" from "ata".
klog-line_example :
    let say : ℕ → Option (List Call) =
      λ level. klog level (97 ∷ 116 ∷ 97 ∷ 0 ∷ []) (110 ∷ 111 ∷ 0 ∷ 5 ∷ []) in
    ((length ata_name ≤ 22)
      × Says ata_name (110 ∷ 111 ∷ []) (73 ∷ 78 ∷ 70 ∷ 79 ∷ []) 7 (say 0)
      × Says ata_name (110 ∷ 111 ∷ []) (87 ∷ 65 ∷ 82 ∷ 78 ∷ []) 14 (say 1)
      × Says ata_name (110 ∷ 111 ∷ []) (32 ∷ 69 ∷ 82 ∷ 82 ∷ []) 4 (say 2))
    ⊎ ((22 < length ata_name) × ((level : ℕ) → level < 3 → say level ≡ none))
klog-line_example =
    klog-line ata_name [] (110 ∷ 111 ∷ []) (5 ∷ []) (omega arith, (omega arith, (omega arith, tt)))
      (omega arith, (omega arith, tt))
