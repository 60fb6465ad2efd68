-- ===== src/Lib.antt =====
-- CfgMgr: the configuration manager of a network device. A CGI program (cgi-src/cfgMgrCgi.c) turns
-- a web form into a message and sends it over a queue; the daemon (cfgMgr.c starts the thread of
-- web.c) serves one message at a time, changes the configuration, the interfaces and the log, and
-- answers on the same queue.
--
-- Parts. Memory models the payload of a message as bytes, on which the program lays its structures
-- by casts, with the C calls on them; Base.Text has C text and the conversions of the C library,
-- and Inet inet_pton. Message and Params are inc/message.h and inc/parameters.h. Env is the world
-- of the daemon: kernel, shell, clock, queues, SQLite and Mini-XML; each call takes the state of
-- the world and returns the next one. Share is share.c (macString2Hex, macHex2String; Share.Times
-- has time2format and its kin), Ping is ping.c (pingTest and below), Trace is trace.c (trace,
-- logOpen, logWrite, logSelect) with the state of the daemon (Daemon: the configuration `pa`, the
-- last error text, ping's table, the world); Trace.Quoting and Trace.Select read its statements as
-- SQL does, and Trace.Table has the log as the rows that SQLite keeps (Trace.Order compares their
-- times, Trace.Found has what a query finds, Trace.Journal what stands in it).
--
-- web.c is in four parts: Config (paramSave), Config.Load (paramLoad, with what it traces in
-- Config.Load.Traces), Net (set_addr, set_gateway, if_updown, setMacAddress, setNetParameters), and
-- Web with the handlers: Web.Confirm (genConfirmMsg), Web.Login (doLogin, doAdminPasswdConfirm),
-- Web.Users (doNormalUserMgr, doSuperUserMgr), Web.Net (doLanTest, doNetConfigSave, doNetCapture,
-- doNetFilter), Web.Info (the requests that need little of the state), Web.SystemInfo, Web.Logs
-- (doLogLookUp, with logRequest of trace.c), Web.Logs.Export (doLogExport, with logRequestExport),
-- and Web.Dispatch (the switch and the loop of webProcess; its start; webInit;
-- Web.Dispatch.Supported has the requests that the switch has a working case for). A handler
-- returns its status, its message and the daemon, as a Reply.
--
-- cfgMgrCgi.c is Cgi: the request functions by subject (Cgi.Net, Cgi.Users, Cgi.Logs, Cgi.Files)
-- and the table of functions with cgiMain up to msgSend (Cgi.Table); Cgi.Answers prints the
-- responses, with msg2json and the whole of cgiMain in Cgi.Answers.Page. The form is a parameter,
-- as cgic gives it, and so is what the uninitialised message holds. EndToEnd puts the CGI and the
-- daemon together, one form after the other (EndToEnd.Sessions has the accounts as an abstract
-- machine, and EndToEnd.Restart the daemon's restart; EndToEnd.LogLookUp goes from the form of a
-- look-up to the printed page, and EndToEnd.Logged from what has been traced). Exchange has the one
-- queue (message.c) on which CGI processes and the daemon meet, as a step relation on their
-- interleavings, and EndToEnd.Queued finds the sessions among them. EndToEnd.Settings and
-- EndToEnd.Kept follow the capture, filter and network forms into the configuration and over a
-- restart. Net.Device says by laws what a kernel shows of its interfaces; Web.Net.Interfaces and
-- EndToEnd.Interfaces are about that. Tests has concrete worlds, configurations and forms.
--
-- Bounds. The wait for a link polls until it is there: the model polls at most `polls` times and
-- gives none where that is not enough, and Net.Laws says which bound is. The copy of an upload is
-- given as many reads as the file has bytes, and one read takes a byte at least (Cgi.Files). No
-- other loop needs a bound. Numbers are those of the machine as bit patterns (32-bit int, 64-bit
-- time_t, little endian); where the source's arithmetic may overflow the model says so or has no
-- result.
--
-- Not modelled: cgic, SQLite, Mini-XML and the kernel (parameters); the creation of the thread in
-- webInit and main; what is printed to the terminal; the main function of ping.c and its
-- statistics; the test programs under test/. A database that does not open and a document that
-- Mini-XML cannot build or save, which the source asserts, are assumed not to happen. Mini-XML
-- reads a text with blanks as several words; the laws of saving and loading are about documents
-- without blanks (Config.Words).
pub mod Base
pub mod Memory
pub mod Message
pub mod Params
pub mod Env
pub mod Ping
pub mod Inet
pub mod Share
pub mod Trace
pub mod Config
pub mod Web
pub mod Cgi
pub mod EndToEnd
pub mod Exchange
pub mod Tests
pub mod Net
