-- ===== src/Playbooks/Commands.antt =====
-- The firewall commands of inference/playbooks.py, with the values of an alert in them.
use ai_cyber_threat_detector.Common.{◌≡◌, true, List, String, map}
use ai_cyber_threat_detector.Playbooks.Templates.{Template}
use ai_cyber_threat_detector.Playbooks.Quote.{quote}
use ai_cyber_threat_detector.Playbooks.Generate.{Parameters, firewall_rule_of}
use ai_cyber_threat_detector.Playbooks.Marks.{
  Key, src_ip, dst_ip, dst_port, domain, ja3_hash, Part, literal, hole, is_plain, render, fill,
}

abbrev pub value : Parameters → Key → String
value p src_ip = p.src_ip
value p dst_ip = p.dst_ip
value p dst_port = p.dst_port
value p domain = p.domain
value p ja3_hash = p.ja3_hash

-- each hole with its own value, quoted
abbrev pub filled : Parameters → Part → Part
filled p (literal s) = literal s
filled p (hole k) = literal (quote (value p k))

-- the template's command in parts, and the command with the values in their places
abbrev pub IsFilled : Parameters → Template → Type 0
IsFilled p template =
    (parts : List Part) × (template.firewall_rule ≡ render parts)
    × (firewall_rule_of template p ≡ render (map (filled p) parts))

module _ (p : Parameters) (harmless : (k : Key) → is_plain (quote (value p k)) ≡ true) where
  abbrev step : Key → List Part → List Part
  step k parts = map (fill k (quote (value p k))) parts
