-- ===== src/Playbooks/Templates.antt =====
-- PLAYBOOK_TEMPLATES and THREAT_CLASS_MAP of inference/playbooks.py.
use ai_cyber_threat_detector.Common.{List, [], ◌∷◌, String}
use ai_cyber_threat_detector.Common.Dict.{Dict}

pub record Template : Type 0 where
  pub title : String
  pub containment_steps : List String
  pub firewall_rule : String
  pub forensic_checklist : List String
  pub mitre_mitigations : List String

abbrev pub volumetric_protocol_ddos : Template
volumetric_protocol_ddos = record {
  title = "Volumetric & Protocol DDoS Containment";
  containment_steps =
      "Enable upstream BGP Blackhole / Rate-Limiting for victim destination port."
      ∷ "Activate SYN Cookies and aggressive TCP connection timeout parameters on gateway edge."
      ∷ "Block amplification reflector source IPs at border ingress filter." ∷ [];
  firewall_rule =
      "iptables -A INPUT -p tcp --dport {dst_port} -m limit --limit 25/minute --limit-burst 100 -j ACCEPT";
  forensic_checklist =
      "Extract 5-minute PCAP slice around attack onset."
      ∷ "Analyze source IP distribution for spoofed /56 or /64 prefix clusters."
      ∷ "Identify amplification reflection vectors (NTP monlist, DNS ANY, Memcached)." ∷ [];
  mitre_mitigations =
      "M1037 - Filter Network Traffic" ∷ "M1035 - Limit Hardware & Protocol Interfaces" ∷ [];
}

abbrev pub botnet_c2_beaconing : Template
botnet_c2_beaconing = record {
  title = "Botnet C2 Infrastructure Isolation & Host Triage";
  containment_steps =
      "Isolate compromised endpoint from local LAN segment."
      ∷ "Block C2 IP/domain at outbound gateway border router."
      ∷ "Revoke active Kerberos / OAuth sessions associated with the infected host." ∷ [];
  firewall_rule = "iptables -I FORWARD -s {src_ip} -j DROP\niptables -I OUTPUT -d {dst_ip} -j DROP";
  forensic_checklist =
      "Acquire volatile memory dump (RAM) of infected endpoint via Volatility / WinPmem."
      ∷ "Inspect process hierarchy for parentless binaries or suspicious PowerShell/rundll32 executions."
      ∷ "Collect scheduled tasks and autorun registry persistence keys." ∷ [];
  mitre_mitigations =
      "M1037 - Filter Network Traffic" ∷ "M1049 - Antivirus/Antimalware"
      ∷ "M1040 - Network Segmentation" ∷ [];
}

abbrev pub dga_domain : Template
dga_domain = record {
  title = "Algorithmic DGA Resolution Sinkholing";
  containment_steps =
      "Add domain to internal DNS sinkhole / RPZ (Response Policy Zone) returning 127.0.0.1."
      ∷ "Identify internal client issuing high-entropy recursive DNS requests."
      ∷ "Trigger automated EDR scan on requesting endpoint." ∷ [];
  firewall_rule = "unbound-control local_zone {domain} always_nxdomain";
  forensic_checklist =
      "Extract full DNS query history for requesting source IP over past 24 hours."
      ∷ "Correlate with known DGA seed dates (Conficker, Cryptolocker, Banjori families)."
      ∷ "Identify executable responsible for initiating UDP 53 socket connection." ∷ [];
  mitre_mitigations =
      "M1031 - Network Intrusion Prevention" ∷ "M1020 - Automated Dynamic DNS Filtering" ∷ [];
}

abbrev pub dns_tunneling_exfil : Template
dns_tunneling_exfil = record {
  title = "DNS Tunneling & Data Exfiltration Remediation";
  containment_steps =
      "Block authoritative nameserver domain on recursive resolvers."
      ∷ "Enforce strict DNS query length limits (< 60 chars) on perimeter DNS forwarders."
      ∷ "Quarantine endpoint transmitting high-entropy TXT/NULL payloads." ∷ [];
  firewall_rule =
      "iptables -A FORWARD -s {src_ip} -p udp --dport 53 -m length --length 150:65535 -j DROP";
  forensic_checklist =
      "Reconstruct Base64/Hex stream from decoded subdomain chunks."
      ∷ "Perform DLP classification on reconstructed files to assess data exposure."
      ∷ "Analyze process network sockets to find DNS tunneling tools (e.g. dnscat2, iodine)." ∷ [];
  mitre_mitigations = "M1037 - Filter Network Traffic" ∷ "M1057 - Data Loss Prevention" ∷ [];
}

abbrev pub malicious_ja3_fingerprint : Template
malicious_ja3_fingerprint = record {
  title = "Encrypted C2 Malware Handshake Interception";
  containment_steps =
      "Quarantine infected host immediately via EDR agent."
      ∷ "Blacklist destination C2 IP and JA3 fingerprint across all perimeter sensors."
      ∷ "Scan host for known C2 framework stagers (Cobalt Strike, Sliver, Metasploit)." ∷ [];
  firewall_rule = "iptables -I FORWARD -s {src_ip} -d {dst_ip} -j DROP";
  forensic_checklist =
      "Extract in-memory DLL injections (e.g. Cobalt Strike Reflective DLL Loader)."
      ∷ "Inspect named pipes used for local inter-process communication."
      ∷ "Cross-reference JA3 hash ({ja3_hash}) against latest threat intelligence feeds." ∷ [];
  mitre_mitigations =
      "M1037 - Filter Network Traffic" ∷ "M1049 - Antivirus/EDR Containment"
      ∷ "M1041 - Execution Prevention" ∷ [];
}

abbrev pub encrypted_malware_tls : Template
encrypted_malware_tls = record {
  title = "Suspicious TLS Handshake Containment";
  containment_steps =
      "Block outbound connections to destination host with anomalous self-signed certificate."
      ∷ "Inspect internal client for unsigned binaries initiating TLS sockets." ∷ [];
  firewall_rule = "iptables -I OUTPUT -d {dst_ip} -p tcp --dport {dst_port} -j DROP";
  forensic_checklist =
      "Extract full X.509 certificate metadata from Zeek ssl.log."
      ∷ "Correlate SNI entropy with malware infrastructure hosting providers." ∷ [];
  mitre_mitigations =
      "M1037 - Filter Network Traffic" ∷ "M1031 - Network Intrusion Prevention" ∷ [];
}

abbrev pub recon_port_scan : Template
recon_port_scan = record {
  title = "Internal Reconnaissance & Port Scan Containment";
  containment_steps =
      "Temporarily restrict source IP from accessing internal server VLANs."
      ∷ "Inspect source host for compromised credentials or scanning tools (Nmap, Masscan)."
      ∷ "Verify if target ports contain unpatched vulnerabilities." ∷ [];
  firewall_rule = "iptables -I FORWARD -s {src_ip} -j DROP";
  forensic_checklist =
      "Determine whether scan was automated SYN sweep or interactive discovery."
      ∷ "Check authentication logs on target systems for subsequent lateral movement attempts."
      ∷ [];
  mitre_mitigations = "M1030 - Network Segmentation" ∷ "M1035 - Disable Unnecessary Services" ∷ [];
}

abbrev pub data_exfiltration : Template
data_exfiltration = record {
  title = "High-Volume Unilateral Data Exfiltration Response";
  containment_steps =
      "Sever outbound internet connection for exfiltrating host immediately."
      ∷ "Trigger emergency incident response team notification and forensic preservation."
      ∷ "Block external drop-site / C2 receiver IP across all egress firewalls." ∷ [];
  firewall_rule =
      "iptables -I FORWARD -s {src_ip} -j REJECT --reject-with icmp-admin-prohibited\niptables -I OUTPUT -d {dst_ip} -j DROP";
  forensic_checklist =
      "Audit endpoint file access logs to determine exact sensitive files accessed before exfiltration."
      ∷ "Identify archive tools (7-Zip, WinRAR) or staging directories used prior to upload."
      ∷ "Calculate total exfiltrated data volume across all concurrent connections." ∷ [];
  mitre_mitigations =
      "M1057 - Data Loss Prevention" ∷ "M1037 - Filter Network Traffic"
      ∷ "M1040 - Restrict File & Directory Access" ∷ [];
}

abbrev pub playbook_templates : Dict Template
playbook_templates =
    ("VOLUMETRIC_PROTOCOL_DDOS", volumetric_protocol_ddos)
    ∷ ("BOTNET_C2_BEACONING", botnet_c2_beaconing)
    ∷ ("DGA_DOMAIN", dga_domain)
    ∷ ("DNS_TUNNELING_EXFIL", dns_tunneling_exfil)
    ∷ ("MALICIOUS_JA3_FINGERPRINT", malicious_ja3_fingerprint)
    ∷ ("ENCRYPTED_MALWARE_TLS", encrypted_malware_tls)
    ∷ ("RECON_PORT_SCAN", recon_port_scan)
    ∷ ("DATA_EXFILTRATION", data_exfiltration)
    ∷ []

abbrev pub threat_class_map : Dict String
threat_class_map =
    ("DDOS", "VOLUMETRIC_PROTOCOL_DDOS")
    ∷ ("VOLUMETRIC_PROTOCOL_DDOS", "VOLUMETRIC_PROTOCOL_DDOS")
    ∷ ("C2 BEACONING", "BOTNET_C2_BEACONING")
    ∷ ("BOTNET_C2_BEACONING", "BOTNET_C2_BEACONING")
    ∷ ("DGA / DNS TUNNELLING", "DGA_DOMAIN")
    ∷ ("DGA", "DGA_DOMAIN")
    ∷ ("DGA_DOMAIN", "DGA_DOMAIN")
    ∷ ("DNS TUNNELLING", "DNS_TUNNELING_EXFIL")
    ∷ ("DNS_TUNNELING_EXFIL", "DNS_TUNNELING_EXFIL")
    ∷ ("ENCRYPTED-TRAFFIC MALWARE", "ENCRYPTED_MALWARE_TLS")
    ∷ ("ENCRYPTED_MALWARE_TLS", "ENCRYPTED_MALWARE_TLS")
    ∷ ("MALICIOUS_JA3_FINGERPRINT", "MALICIOUS_JA3_FINGERPRINT")
    ∷ ("RECONNAISSANCE", "RECON_PORT_SCAN")
    ∷ ("RECON_PORT_SCAN", "RECON_PORT_SCAN")
    ∷ ("DATA EXFILTRATION", "DATA_EXFILTRATION")
    ∷ ("DATA_EXFILTRATION", "DATA_EXFILTRATION")
    ∷ []
