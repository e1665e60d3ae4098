-- ===== src/Analysis/Phase.antt =====
-- internal/analysis/analysis.go: the phases of the kill chain, and the phase of a technique. `Phase`
-- is a Go string type, of which only the twelve constants occur.
use sentinel_api.Base.{String, Bool, List, [], ◌∷◌, any, str_eq, if◌then◌else◌}

pub data Phase : Type 0 where
  recon initial_access execution persistence defense_evasion credential_access : Phase
  discovery lateral_movement collection c2 exfiltration impact : Phase

abbrev pub phase_text : Phase → String
phase_text recon = "reconnaissance"
phase_text initial_access = "initial_access"
phase_text execution = "execution"
phase_text persistence = "persistence"
phase_text defense_evasion = "defense_evasion"
phase_text credential_access = "credential_access"
phase_text discovery = "discovery"
phase_text lateral_movement = "lateral_movement"
phase_text collection = "collection"
phase_text c2 = "command_and_control"
phase_text exfiltration = "exfiltration"
phase_text impact = "impact"

abbrev pub phase_eq : Phase → Phase → Bool
phase_eq p q = str_eq (phase_text p) (phase_text q)

abbrev pub phase_order : List Phase
phase_order =
    recon ∷ initial_access ∷ execution ∷ persistence ∷ defense_evasion ∷ credential_access
    ∷ discovery ∷ lateral_movement ∷ collection ∷ c2 ∷ exfiltration ∷ impact ∷ []

abbrev pub label : Phase → String
label recon = "Reconnaissance"
label initial_access = "Initial access"
label execution = "Execution"
label persistence = "Persistence"
label defense_evasion = "Defense evasion"
label credential_access = "Credential access"
label discovery = "Discovery"
label lateral_movement = "Lateral movement"
label collection = "Collection"
label c2 = "Command & control"
label exfiltration = "Exfiltration"
label impact = "Impact"

abbrev one_of : String → List String → Bool
one_of t ts = any (str_eq t) ts

unfoldable pub phase_for_technique : String → Phase
phase_for_technique t =
    if one_of t ("T1595.001" ∷ "T1595" ∷ "T1083" ∷ "T1046" ∷ "T1595.002" ∷ "T1057" ∷ [])
    then recon
    else if one_of t ("T1190" ∷ "T1133" ∷ "T1566" ∷ "T1189" ∷ "T1200" ∷ [])
    then initial_access
    else if one_of t ("T1059" ∷ "T1203" ∷ "T1106" ∷ [])
    then execution
    else if one_of t ("T1505.003" ∷ "T1505" ∷ "T1543" ∷ "T1574" ∷ [])
    then persistence
    else if one_of t ("T1078.004" ∷ "T1078" ∷ "T1562" ∷ "T1027" ∷ [])
    then defense_evasion
    else if one_of t ("T1110" ∷ "T1111" ∷ "T1558" ∷ "T1003" ∷ [])
    then credential_access
    else if one_of t ("T1087" ∷ "T1016" ∷ "T1018" ∷ "T1033" ∷ "T1082" ∷ [])
    then discovery
    else if one_of t ("T1021" ∷ "T1563" ∷ "T1570" ∷ [])
    then lateral_movement
    else if one_of t ("T1005" ∷ "T1213" ∷ "T1560" ∷ [])
    then collection
    else if one_of t ("T1071" ∷ "T1105" ∷ "T1573" ∷ [])
    then c2
    else if one_of t ("T1041" ∷ "T1567" ∷ "T1020" ∷ [])
    then exfiltration
    else if one_of t ("T1486" ∷ "T1489" ∷ "T1490" ∷ [])
    then impact
    else initial_access
