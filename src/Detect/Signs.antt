-- ===== src/Detect/Signs.antt =====
-- internal/detect/rules.go: the tests and the lists that the rules share.
use sentinel_api.Base.{
  ℕ, ◌^◌, String, Bool, true, false, List, [], ◌∷◌, map, pos, int_eq, length, any, codes, lower,
  contains, if◌then◌else◌,
}
use sentinel_api.Event.{NormalizedEvent}

abbrev pub second : ℕ
second = 10 ^ 9

-- The keys of a Go map that is used as a set.
unfoldable pub key_set {ℓ} : {A : Type ℓ} → (A → A → Bool) → List A → List A
key_set eq [] = []
key_set eq (x ∷ xs) = let s = key_set eq xs in if any (eq x) s then s else x ∷ s

abbrev pub distinct {ℓ} : {A : Type ℓ} → (A → A → Bool) → List A → ℕ
distinct eq xs = length (key_set eq xs)

abbrev pub status_is : ℕ → NormalizedEvent → Bool
status_is n e = int_eq e.status (pos n)

-- One of the listed texts occurs in the text.
unfoldable pub contains_any : List ℕ → List String → Bool
contains_any s subs = any (λ sub. contains s (codes sub)) subs

abbrev scanner_signatures : List String
scanner_signatures =
    "dirbuster" ∷ "gobuster" ∷ "ffuf" ∷ "nikto" ∷ "dirb" ∷ "wfuzz" ∷ "feroxbuster"
    ∷ "python-requests" ∷ []

abbrev sensitive_segments : List String
sensitive_segments =
    "administrator" ∷ "/manage" ∷ "wp-admin" ∷ "wp-login" ∷ "phpmyadmin" ∷ "backup" ∷ "config.php"
    ∷ ".git" ∷ "server-status" ∷ "console" ∷ "shell" ∷ ".env" ∷ "/private" ∷ "/internal" ∷ "/admin"
    ∷ "uploads" ∷ "phpinfo" ∷ "actuator" ∷ "swagger" ∷ "metrics" ∷ "cgi-bin" ∷ "xmlrpc" ∷ ".svn"
    ∷ []

abbrev pub upload_segments : List String
upload_segments = "/uploads/" ∷ "/images/" ∷ "/img/" ∷ "/assets/" ∷ "/media/" ∷ []

abbrev pub script_extensions : List String
script_extensions = ".php" ∷ ".jsp" ∷ ".aspx" ∷ ".asp" ∷ ".cgi" ∷ ".sh" ∷ ".jspx" ∷ []

unfoldable pub is_dir_buster_ua : List ℕ → Bool
is_dir_buster_ua ua = contains_any (map lower ua) scanner_signatures

unfoldable pub looks_like_sensitive_path : List ℕ → Bool
looks_like_sensitive_path p = contains_any (map lower p) sensitive_segments

unfoldable pub is_known_upload_path : List ℕ → Bool
is_known_upload_path p = if contains_any (map lower p) upload_segments then false else true
