-- ===== src/Sip/StatusCode.antt =====
-- sip/sip-types/src/code.rs: status codes, their kinds and their default texts.
pub mod Kinds
use Prim.Native.String.{String}
use ezk.Common.{ℕ, List, [], ◌∷◌, Option, none, some, Bool, ◌&&◌, leb, ◌==◌, if◌then◌else◌}

pub data CodeKind : Type 0 where
  provisional success redirection request_failure server_failure global_failure custom : CodeKind

abbrev within : ℕ → ℕ → ℕ → Bool
within lo hi code = leb lo code && leb code hi

unfoldable pub kind : ℕ → CodeKind
kind code =
    if within 100 199 code
    then CodeKind.provisional
    else if within 200 299 code
    then CodeKind.success
    else if within 300 399 code
    then CodeKind.redirection
    else if within 400 499 code
    then CodeKind.request_failure
    else if within 500 599 code
    then CodeKind.server_failure
    else if within 600 699 code
    then CodeKind.global_failure
    else CodeKind.custom

-- The arms that the macro `codes!` writes for `text`, in order.
abbrev pub codes : List (ℕ × String)
codes =
    (100, "Trying")
    ∷ (180, "Ringing")
    ∷ (181, "Call Is Being Forwarded")
    ∷ (182, "Queued")
    ∷ (183, "Session Progress")
    ∷ (199, "Early Dialog Terminated")
    ∷ (200, "OK")
    ∷ (300, "Multiple Choices")
    ∷ (301, "Moved Permanently")
    ∷ (302, "Moved Temporarily")
    ∷ (305, "Use Proxy")
    ∷ (380, "Alternative Service")
    ∷ (400, "Bad Request")
    ∷ (401, "Unauthorized")
    ∷ (402, "Payment Required")
    ∷ (403, "Forbidden")
    ∷ (404, "Not Found")
    ∷ (405, "Method Not Allowed")
    ∷ (406, "Not Acceptable")
    ∷ (407, "Proxy Authentication Required")
    ∷ (408, "Request Timeout")
    ∷ (410, "Gone")
    ∷ (413, "Request Entity Too Large")
    ∷ (414, "Request-URI Too Long")
    ∷ (415, "Unsupported Media Type")
    ∷ (416, "Unsupported URI Scheme")
    ∷ (420, "Bad Extension")
    ∷ (421, "Extension Required")
    ∷ (422, "Session Interval Too Small")
    ∷ (423, "Interval Too Brief")
    ∷ (480, "Temporarily Unavailable")
    ∷ (481, "Call/Transaction Does Not Exist")
    ∷ (482, "Loop Detected")
    ∷ (483, "Too Many Hops")
    ∷ (484, "Address Incomplete")
    ∷ (485, "Ambiguous")
    ∷ (486, "Busy Here")
    ∷ (487, "Request Terminated")
    ∷ (488, "Not Acceptable Here")
    ∷ (489, "Bad Event")
    ∷ (491, "Request Pending")
    ∷ (493, "Undecipherable")
    ∷ (500, "Server Internal Error")
    ∷ (501, "Not Implemented")
    ∷ (502, "Bad Gateway")
    ∷ (503, "Service Unavailable")
    ∷ (504, "Server Time-out")
    ∷ (505, "Version Not Supported")
    ∷ (513, "Message Too Large")
    ∷ (600, "Busy Everywhere")
    ∷ (603, "Decline")
    ∷ (604, "Does Not Exist Anywhere")
    ∷ (606, "Not Acceptable")
    ∷ []

abbrev find_text : ℕ → List (ℕ × String) → Option String
find_text code [] = none
find_text code ((c, reason) ∷ arms) = if code == c then some reason else find_text code arms

unfoldable pub text : ℕ → Option String
text code = find_text code codes
