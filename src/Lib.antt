-- ===== src/Lib.antt =====
-- Verification library of vscode-cann-debugger, a debug adapter that drives the CANN debugger (GDB or
-- LLDB behind the GDB/MI protocol) from VS Code. All source paths below are in the folder src/ of the
-- repository.
--
-- The program's parts and how they interact. The extension (extension.ts, targetManager/) starts the
-- adapter (ascendDebugSession.ts), which speaks DAP to VS Code. The adapter builds the command line
-- of the debugger for the execution mode (wslLauncher.ts, dockerLauncher.ts, sshLauncher.ts,
-- configuration.ts), spawns it through MiConnection (mi/miConnection.ts), sends it MI commands and
-- reads its MI output with parseMiLine (mi/miParser.ts). Variables, registers and tensors are
-- rendered from the replies (varObjects.ts, typeFormatters.ts, registers.ts, tensorDecode.ts), and
-- paths are translated between host and guest (pathMapper.ts).
--
-- What models what:
-- Base: numbers, lists, JavaScript strings as lists of UTF-16 code units, decimal numerals.
-- Mi.Value: MiValue, MiTuple, addResult, miString, miTuple, miArray, miList of mi/miParser.ts.
--   A JavaScript object is the list of its own fields; what an object literal inherits is modelled
--   by its names, but the prototype that an assignment to `__proto__` sets is not.
-- Mi.CString: Parser.parseCString of mi/miParser.ts and quoteMiString of mi/miConnection.ts.
-- Mi.Parser: the class Parser of mi/miParser.ts. The position is the text that is left, a thrown
--   Error is the result `failed`.
-- Mi.Line: parseMiLine, MiRecord and MiRecordType of mi/miParser.ts. A token is a natural number;
--   the program's is a double, exact below 2^53, and sendCommand counts them from 1.
-- Mi.Connection: the class MiConnection of mi/miConnection.ts: sendCommand, onStdout, onStderr,
--   handleLine, failAllPending and the handlers of the process. A handler gives the new state and the
--   acts that others observe, in order: log lines, writes, settled promises, emitted events.
--   Listeners and promise continuations run after the handler.
-- Launch.Options: the option records, environments and errors of wslLauncher.ts, dockerLauncher.ts
--   and sshLauncher.ts. `process.env` and `process.platform` are arguments (Host). An environment is
--   the list of its own entries, names are compared exactly.
-- Launch.Shell: shQuote of wslLauncher.ts; Launch.Shell.Words and Launch.Shell.Last have the POSIX rules
--   on words and on the last command that it and the guest script are held to.
-- Launch.Commands: buildWslCommand of wslLauncher.ts, buildDockerExecArgv and buildContainerCommand of
--   dockerLauncher.ts, buildSshCommand, resolveSshPassword and appendWslEnv of sshLauncher.ts. Ports
--   and keepalive intervals are natural numbers.
-- Launch.Spawn: buildDebuggerSpawn, buildGuestScript, buildSignalPrefix and buildSignalEnv of
--   wslLauncher.ts.
-- Registers: registers.ts, with parseRegisterBinding in Registers.Binding.
-- PathMapper: the class of pathMapper.ts, with sameFile in PathMapper.SameFile. `toLowerCase` of a whole
--   path is an argument of the model.
-- VarObjects: varObjects.ts. Manager has VarObjectManager, Types classifyType, Memory evaluateInteger,
--   readMemoryBytes and resolveMemoryAddress. An asynchronous method is a function of the state that
--   gives its outcome and the state behind it; two methods do not overlap. The debugger is a parameter
--   that answers each command as it likes, given the commands before. Mi.Number has miNumber, on
--   integers: a fraction or an exponent is no number of the model.
-- TypeFormatters: typeFormatters.ts. Registry has the interface ITypeFormatter and the registry, Vector
--   and StdString the two formatters, Types and Display the helpers. UTF-8 of Node's Buffer and the
--   references that the session hands out are parameters.
-- TensorDecode: tensorDecode.ts. Shape has parseByteCount, parseShape and gridShape, Elements
--   decodeTensor with its element types, Summary tensorStats, Guess guessDType, Format formatValue.
--   What a double is, and what Buffer reads as one, are parameters (Numbers, Arithmetic, Writing).
-- DebugSession: of ascendDebugSession.ts, the memory and disassembly requests with all they call, and
--   the module-level helpers but formatBytes. A request gives its response; base64 and events are
--   left out.
-- Configuration: resolveExecutionMode and shouldTranslatePaths of configuration.ts, and the options
--   that startSession of ascendDebugSession.ts makes of the arguments for PathMapper and
--   Launch.Spawn. Whether a directory exists on the host is a parameter.
-- Targets: targetManager/targetConfig.ts but its calls of the VS Code API: the target and (Validation)
--   its validation, the launch configuration made of it, the key of its password. `path.basename` of the
--   machine is a parameter, a port is a natural number. What VS Code and extension.ts change in a
--   launch configuration on its way to the adapter is left out.
-- Base.Patterns: pieces of the regular expressions, used by the modules above.
--
-- Fuel. The loop of parseCString, the recursive descent and the loops of onStdout and of the pid
-- removal run on fuel: the length of the text and one, four units for each character and eight, the
-- length of the buffer, the length of the chunk. Each round reads at least one character, and a call
-- that reads none is followed by one that does within four calls. The loop of stripCvRef runs on the
-- length of the text and one, and drops a character in each round but the last.
--
-- Not modelled: input and output themselves, timers and the waiting for promises, the stack limit of
-- the host; extension.ts, debugAdapter.ts, tensorInspectorView.ts, the view of targetManager/ and
-- media/, which call the VS Code API and draw; the other requests of ascendDebugSession.ts and
-- targetManager/deploy.ts, which use the parts above and which no part above uses.
pub mod Base
pub mod Mi
pub mod Launch
pub mod Registers
pub mod PathMapper
pub mod VarObjects
pub mod TypeFormatters
pub mod TensorDecode
pub mod Configuration
pub mod Targets
pub mod DebugSession
