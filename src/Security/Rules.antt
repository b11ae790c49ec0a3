-- ===== src/Security/Rules.antt =====
-- The built-in rules of apps/api/src/security/scanner.ts, `SCAN_RULES`, in their order.
use psychic_octo_invention.Prelude.{List, [], ◌∷◌}
use psychic_octo_invention.Security.Types.{
  critical, high, medium, os_command, shell_exec, filesystem, network, dynamic_code, env_access,
  subprocess, import_risk, ScanRule,
}

abbrev pub scan_rules : List ScanRule
scan_rules =
    record {
      id = "SEC-001";
      severity = critical;
      description = "Direct OS command execution via os.system";
      pattern = record { source = "os\\s*\\.\\s*system\\s*\\("; flags = "g" };
      category = os_command;
    }
    ∷ record {
      id = "SEC-002";
      severity = critical;
      description = "OS command execution via os.popen";
      pattern = record { source = "os\\s*\\.\\s*popen\\s*\\("; flags = "g" };
      category = os_command;
    }
    ∷ record {
      id = "SEC-003";
      severity = critical;
      description = "OS command execution via os.exec variants";
      pattern = record { source = "os\\s*\\.\\s*exec[lv]?[pe]?\\s*\\("; flags = "g" };
      category = os_command;
    }
    ∷ record {
      id = "SEC-010";
      severity = critical;
      description = "Node.js child_process execution";
      pattern = record { source = "child_process"; flags = "g" };
      category = shell_exec;
    }
    ∷ record {
      id = "SEC-011";
      severity = critical;
      description = "Shell execution via exec/execSync";
      pattern = record { source = "(?<!\\.\\s*)\\bexecSync?\\s*\\("; flags = "g" };
      category = shell_exec;
    }
    ∷ record {
      id = "SEC-012";
      severity = critical;
      description = "Shell execution via spawn/spawnSync";
      pattern = record { source = "\\bspawnSync?\\s*\\("; flags = "g" };
      category = shell_exec;
    }
    ∷ record {
      id = "SEC-013";
      severity = critical;
      description = "Shell execution via execFile/execFileSync";
      pattern = record { source = "\\bexecFileSync?\\s*\\("; flags = "g" };
      category = shell_exec;
    }
    ∷ record {
      id = "SEC-014";
      severity = critical;
      description = "Shell execution via fork";
      pattern = record { source = "\\bfork\\s*\\("; flags = "g" };
      category = shell_exec;
    }
    ∷ record {
      id = "SEC-020";
      severity = critical;
      description = "Python subprocess module usage";
      pattern = record {
        source = "subprocess\\s*\\.\\s*(call|run|Popen|check_output|check_call)\\s*\\(";
        flags = "g";
      };
      category = subprocess;
    }
    ∷ record {
      id = "SEC-021";
      severity = critical;
      description = "Python subprocess import";
      pattern = record { source = "import\\s+subprocess"; flags = "g" };
      category = subprocess;
    }
    ∷ record {
      id = "SEC-030";
      severity = critical;
      description = "Dynamic code execution via eval()";
      pattern = record { source = "\\beval\\s*\\("; flags = "g" };
      category = dynamic_code;
    }
    ∷ record {
      id = "SEC-031";
      severity = critical;
      description = "Dynamic code execution via Function constructor";
      pattern = record { source = "new\\s+Function\\s*\\("; flags = "g" };
      category = dynamic_code;
    }
    ∷ record {
      id = "SEC-032";
      severity = high;
      description = "Dynamic code execution via setTimeout/setInterval with string";
      pattern = record { source = "\\b(setTimeout|setInterval)\\s*\\(\\s*['\"`]"; flags = "g" };
      category = dynamic_code;
    }
    ∷ record {
      id = "SEC-033";
      severity = critical;
      description = "Python exec() built-in";
      pattern = record { source = "(?<!\\.\\s*)\\bexec\\s*\\("; flags = "g" };
      category = dynamic_code;
    }
    ∷ record {
      id = "SEC-034";
      severity = critical;
      description = "Python compile() for code execution";
      pattern = record { source = "\\bcompile\\s*\\([^)]*['\"]exec['\"]"; flags = "g" };
      category = dynamic_code;
    }
    ∷ record {
      id = "SEC-040";
      severity = high;
      description = "Direct filesystem write operations";
      pattern = record {
        source = "\\b(writeFileSync?|appendFileSync?|createWriteStream)\\s*\\(";
        flags = "g";
      };
      category = filesystem;
    }
    ∷ record {
      id = "SEC-041";
      severity = high;
      description = "Filesystem deletion or rename operations";
      pattern = record {
        source = "\\b(unlinkSync?|rmdirSync?|rmSync?|renameSync?)\\s*\\(";
        flags = "g";
      };
      category = filesystem;
    }
    ∷ record {
      id = "SEC-042";
      severity = medium;
      description = "Path traversal attempt";
      pattern = record { source = "\\.\\.\\/"; flags = "g" };
      category = filesystem;
    }
    ∷ record {
      id = "SEC-043";
      severity = high;
      description = "Python file open in write mode";
      pattern = record { source = "open\\s*\\([^)]*['\"][wax]['\"]"; flags = "g" };
      category = filesystem;
    }
    ∷ record {
      id = "SEC-050";
      severity = high;
      description = "Direct access to process.env secrets";
      pattern = record { source = "process\\s*\\.\\s*env\\s*(\\[|\\.)"; flags = "g" };
      category = env_access;
    }
    ∷ record {
      id = "SEC-051";
      severity = high;
      description = "Python os.environ access";
      pattern = record { source = "os\\s*\\.\\s*environ"; flags = "g" };
      category = env_access;
    }
    ∷ record {
      id = "SEC-052";
      severity = high;
      description = "Python os.getenv access";
      pattern = record { source = "os\\s*\\.\\s*getenv\\s*\\("; flags = "g" };
      category = env_access;
    }
    ∷ record {
      id = "SEC-060";
      severity = high;
      description = "Import of native networking module";
      pattern = record {
        source = "require\\s*\\(\\s*['\"](?:net|dgram|tls|http2|https?)['\"]\\s*\\)";
        flags = "g";
      };
      category = import_risk;
    }
    ∷ record {
      id = "SEC-061";
      severity = medium;
      description = "Import of native fs module";
      pattern = record {
        source = "require\\s*\\(\\s*['\"](?:fs|fs\\/promises)['\"]\\s*\\)";
        flags = "g";
      };
      category = import_risk;
    }
    ∷ record {
      id = "SEC-062";
      severity = high;
      description = "Import of native os module";
      pattern = record { source = "require\\s*\\(\\s*['\"]os['\"]\\s*\\)"; flags = "g" };
      category = import_risk;
    }
    ∷ record {
      id = "SEC-063";
      severity = high;
      description = "ES import of dangerous modules";
      pattern = record {
        source = "import\\s+.*from\\s+['\"](?:child_process|net|dgram|tls|http2)['\"]";
        flags = "g";
      };
      category = import_risk;
    }
    ∷ record {
      id = "SEC-064";
      severity = critical;
      description = "Python os module import";
      pattern = record { source = "^import\\s+os\\b"; flags = "gm" };
      category = import_risk;
    }
    ∷ record {
      id = "SEC-070";
      severity = medium;
      description = "Outbound HTTP request via fetch/axios/request";
      pattern = record { source = "\\b(fetch|axios|request|got|needle)\\s*\\("; flags = "g" };
      category = network;
    }
    ∷ record {
      id = "SEC-071";
      severity = medium;
      description = "WebSocket creation";
      pattern = record { source = "new\\s+WebSocket\\s*\\("; flags = "g" };
      category = network;
    }
    ∷ []
