-- ===== src/Samples/Calendar.antt =====
-- timegm for dates from 1970 on. A member out of range is answered by an altered time.
use simple_x509_authenticate.Common.{
  ℕ, ◌+◌, ◌-◌, ◌*◌, ◌/◌, ◌%◌, Bool, ◌&&◌, ◌||◌, not, leb, ltb, ◌==◌, List, [], ◌∷◌, get_elem?,
  Option, none, some, if◌then◌else◌,
}
use simple_x509_authenticate.Common.Int.{pos, negsuc}
use simple_x509_authenticate.X509.Time.{Timegm}

abbrev is_leap : ℕ → Bool
is_leap y = y % 4 == 0 && (not (y % 100 == 0) || y % 400 == 0)

abbrev days_before : List ℕ
days_before = 0 ∷ 31 ∷ 59 ∷ 90 ∷ 120 ∷ 151 ∷ 181 ∷ 212 ∷ 243 ∷ 273 ∷ 304 ∷ 334 ∷ 365 ∷ []

abbrev or_zero : Option ℕ → ℕ
or_zero none = 0
or_zero (some n) = n

abbrev days_to : ℕ → ℕ → ℕ
days_to y m = or_zero (get_elem? days_before m) + (if is_leap y && ltb 1 m then 1 else 0)

-- Days from 1970 to the first of January of the year `y`.
abbrev days_to_year : ℕ → ℕ
days_to_year y = (y - 1970) * 365 + ((y - 1) / 4 - 492) + (y - 1) / 400 - 4 - ((y - 1) / 100 - 19)

abbrev seconds : ℕ → ℕ → ℕ → ℕ → ℕ → ℕ → ℕ
seconds y m d h n s = ((days_to_year y + days_to y m + (d - 1)) * 24 + h) * 3600 + n * 60 + s

abbrev in_range : ℕ → ℕ → ℕ → ℕ → ℕ → ℕ → Bool
in_range y m d h n s =
    leb 1970 y
    && (ltb m 12
        && (leb 1 d
            && (leb d (days_to y (m + 1) - days_to y m) && (ltb h 24 && (ltb n 60 && ltb s 60)))))

abbrev pub calendar : Timegm
calendar tm = elim tm.year [
  | negsuc y ↦ (tm, negsuc 0)
  | pos y ↦ elim tm.mon [
    | negsuc m ↦ (record tm { mon = pos 11 }, negsuc 0)
    | pos m ↦ elim tm.mday [
      | negsuc d ↦ (tm, negsuc 0)
      | pos d ↦ elim tm.hour [
        | negsuc h ↦ (tm, negsuc 0)
        | pos h ↦ elim tm.min [
          | negsuc n ↦ (tm, negsuc 0)
          | pos n ↦ elim tm.sec [
            | negsuc s ↦ (tm, negsuc 0)
            | pos s ↦
                if in_range (y + 1900) m d h n s
                then (tm, pos (seconds (y + 1900) m d h n s))
                else (record tm { mday = pos 0 }, negsuc 0)
          ]
        ]
      ]
    ]
  ]
]
