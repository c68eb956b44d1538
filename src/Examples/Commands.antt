-- ===== src/Examples/Commands.antt =====
-- A hostile alert in the commands of inference/playbooks.py.
use ai_cyber_threat_detector.Playbooks.Generate.{Parameters}
use ai_cyber_threat_detector.Playbooks.Marks.{src_ip, dst_ip, dst_port, domain, ja3_hash}

abbrev hostile : Parameters
hostile = record {
  src_ip = "10.0.0.5";
  dst_ip = "198.51.100.1";
  dst_port = "443";
  domain = "a.com'; reboot #";
  ja3_hash = "";
}
